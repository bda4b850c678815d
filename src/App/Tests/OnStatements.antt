-- ===== src/App/Tests/OnStatements.antt =====
-- The theorems on the connection, at small libraries.
use calabash.Base.{ℕ, ◌≡◌, refl, true, ℤ, some, [], ◌∷◌, Bytes, codes, ok, arith}
use calabash.App.{Env, raised}
use calabash.App.Act.{http_body}
use calabash.App.Business.{app_self}
use calabash.App.Tests.Library.{Json, text_json, no_fields, field, json_lib}
use calabash.App.Connected.{connected, initialised, student_json, app_self-student}
use calabash.Sqlite3.Rows.{Run, next, finished}
use calabash.Sqlite3.Calls.{after_call}
use calabash.Sqlite3.{
  Sqlite3Data, integer, row, read_row, read_columns, fmt_data, fmt_type, bind_compiled_sql_param,
  SqliteLib, Sqlite3,
}
use calabash.Sqlite3.Tests.{step_text}
use calabash.Token.Tests.{strokes}

-- A library whose statements give one row, of nine columns that hold their own number.
abbrev nine_lib : SqliteLib ℤ ℕ Bytes
nine_lib = record {
  zero_double = ℤ.pos 0;
  prepare = λ sql d. some (1 ∷ []);
  bind = λ i v stmt. stmt;
  step = step_text;
  reset = λ stmt. stmt;
  finalize = λ stmt d. d;
  column_count = λ stmt. 9;
  column_type = λ stmt i. integer;
  column_int = λ stmt i. ℤ.pos i;
  column_double = λ stmt i. ℤ.pos 0;
  column_text = λ stmt i. [];
  column_blob = λ stmt i. [];
  bind-null = λ i v. refl;
  step-null = λ d. refl;
  reset-null = refl;
}

-- The environment over such a connection.
abbrev sqlite_env : Env Json ℤ (Sqlite3 ℕ Bytes)
sqlite_env = record {
  json = json_lib;
  call = λ name arg s. ok ([], s);
  calendar = strokes;
  beyond = λ w i. [];
  now = 5;
  later = 6;
  tm_year = 123;
  tm_mon = 9;
}

abbrev nine_cell : ℕ → Sqlite3Data ℤ
nine_cell i = record { text_data = []; double_data = ℤ.pos 0; int_data = ℤ.pos i; type = integer }

abbrev student_body : Json
student_body = field (codes "user") (text_json (codes "0123456789")) no_fields

nine-Run :
    Run nine_lib
      (row, 8, some [])
      ((nine_cell 0
          ∷ nine_cell 1
          ∷ nine_cell 2
          ∷ nine_cell 3
          ∷ nine_cell 4
          ∷ nine_cell 5
          ∷ nine_cell 6
          ∷ nine_cell 7
          ∷ nine_cell 8
          ∷ [])
        ∷ [])
      true
      8
      (some [])
unfolding read_row read_columns fmt_data fmt_type
nine-Run = next 8 8 (some []) (some []) [] true (finished 8 (some []))

app_self-student_example :
    app_self (connected nine_lib 1 sqlite_env) student_body (initialised nine_lib 1 sqlite_env 7)
    ≡ ok (
      raised (
          http_body json_lib
            (json_lib.object ((codes "data", student_json nine_lib 1 sqlite_env nine_cell) ∷ []))),
      after_call nine_lib (codes "student_info") 8 (some []) (initialised nine_lib 1 sqlite_env 7),
    )
unfolding bind_compiled_sql_param
app_self-student_example =
    app_self-student nine_lib 1 sqlite_env student_body (text_json (codes "0123456789"))
      (codes "0123456789") nine_cell 7 8 (some []) refl refl refl nine-Run (omega arith)
