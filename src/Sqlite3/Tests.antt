-- ===== src/Sqlite3/Tests.antt =====
-- The theorems at a small library: a text compiles to as many rows as it has bytes, and the empty
-- text does not compile.
use calabash.Base.{ℕ, ◌+◌, ◌≡◌, refl, true, ℤ, Option, some, none, [], ◌∷◌, Bytes, codes, ok, arith}
use calabash.Sqlite3.{
  SqliteLib, Sqlite3, StepStatus, row, done, error, integer, int_value, Rows, call_compiled_sql,
  read_row, find_sql, bind_compiled_sql_param,
}
use calabash.Sqlite3.Calls.{call_compiled_sql-Run, after_call}
use calabash.Sqlite3.Rows.{Run, finished, next}

abbrev pub prepare_text : Bytes → Option Bytes
prepare_text [] = none
prepare_text (c ∷ text) = some (c ∷ text)

abbrev pub step_text : ℕ → Option Bytes → StepStatus × ℕ × Option Bytes
step_text d none = (error, d, none)
step_text d (some []) = (done, d, some [])
step_text d (some (c ∷ text)) = (row, d + 1, some text)

abbrev pub text_lib : SqliteLib ℕ ℕ Bytes
text_lib = record {
  zero_double = 0;
  prepare = λ sql d. prepare_text sql;
  bind = λ i v stmt. stmt;
  step = step_text;
  reset = λ stmt. stmt;
  finalize = λ stmt d. d;
  column_count = λ stmt. 1;
  column_type = λ stmt i. integer;
  column_int = λ stmt i. ℤ.pos i;
  column_double = λ stmt i. 0;
  column_text = λ stmt i. [];
  column_blob = λ stmt i. [];
  bind-null = λ i v. refl;
  step-null = λ d. refl;
  reset-null = refl;
}

abbrev one_statement : Sqlite3 ℕ Bytes
one_statement = record { db = 7; sql_map = (codes "a", some (codes "s")) ∷ [] }

abbrev no_statement : Sqlite3 ℕ Bytes
no_statement = record { db = 7; sql_map = [] }

abbrev one_row : Rows ℕ
one_row = read_row text_lib (some []) ∷ []

one_row-Run : Run text_lib (row, 8, some []) one_row true 8 (some [])
one_row-Run = next 8 8 (some []) (some []) [] true (finished 8 (some []))

call_compiled_sql-Run_example :
    call_compiled_sql text_lib 3 (codes "a") (int_value (ℤ.pos 1) ∷ []) one_statement
    ≡ ok (one_row, after_call text_lib (codes "a") 8 (some []) one_statement)
unfolding find_sql bind_compiled_sql_param
call_compiled_sql-Run_example =
    call_compiled_sql-Run text_lib 3 (codes "a") (int_value (ℤ.pos 1) ∷ []) (some (codes "s"))
      one_statement refl one_row-Run (omega arith)
