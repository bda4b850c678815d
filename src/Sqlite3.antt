-- ===== src/Sqlite3.antt =====
-- src/database/sqlite3.cpp and src/include/database/sqlite3.h. The SQLite library is a parameter: its
-- connection, its prepared statements and its doubles are types, its functions the fields of
-- `SqliteLib`. A pointer to a statement is `none` where it is null. Log messages are left out.
pub mod Rows
pub mod Calls
pub mod Tests
use calabash.Base.{
  ℕ, zero, suc, ◌+◌, ◌≡◌, Bool, true, false, Option, none, some, List, [], ◌∷◌, ◌++◌, Bytes,
  bytes_eq, ℤ, if◌then◌else◌, Outcome, ok, fault, ◌>>=◌,
}

-- The codes that `sqlite3_column_type` returns; any other takes the default branches.
pub data DataType : Type 0 where
  integer double text blob dat_null other_type : DataType

pub data StepStatus : Type 0 where
  row done error : StepStatus

-- What `BindCompiledSQLParam` is overloaded on; the pointer is the null pointer.
pub data Value (F : Type 0) : Type 0 where
  int_value : ℤ → Value F
  double_value : F → Value F
  text_value : Bytes → Value F
  null_value : Value F

pub record Sqlite3Data (F : Type 0) : Type 0 where
  pub text_data : Bytes
  pub double_data : F
  pub int_data : ℤ
  pub type : DataType

pub record Sqlite3 (Db Stmt : Type 0) : Type 0 where
  pub db : Db
  pub sql_map : List (Bytes × Option Stmt)

-- The functions of the library, with what it documents of a null pointer: it is misuse to step it,
-- and neither binding nor resetting it does anything.
pub record SqliteLib (F Db Stmt : Type 0) : Type 0 where
  pub zero_double : F
  pub prepare : Bytes → Db → Option Stmt
  pub bind : ℕ → Value F → Option Stmt → Option Stmt
  pub step : Db → Option Stmt → StepStatus × Db × Option Stmt
  pub reset : Option Stmt → Option Stmt
  pub finalize : Option Stmt → Db → Db
  pub column_count : Option Stmt → ℕ
  pub column_type : Option Stmt → ℕ → DataType
  pub column_int : Option Stmt → ℕ → ℤ
  pub column_double : Option Stmt → ℕ → F
  pub column_text : Option Stmt → ℕ → Bytes
  pub column_blob : Option Stmt → ℕ → Bytes
  pub bind-null : (i : ℕ) (v : Value F) → bind i v none ≡ none
  pub step-null : (d : Db) → step d none ≡ (error, d, none)
  pub reset-null : reset none ≡ none

abbrev pub Rows : Type 0 → Type 0
Rows F = List (List (Sqlite3Data F))

-- `multimap::insert` puts an entry behind those with its key, and `find` gives the first of them.
unfoldable pub find_sql {ℓ} : {V : Type ℓ} → Bytes → List (Bytes × V) → Option V
find_sql name [] = none
find_sql name ((key, v) ∷ rest) = if bytes_eq key name then some v else find_sql name rest

-- A call changes the statement that it found.
pub put_sql {ℓ} : {V : Type ℓ} → Bytes → V → List (Bytes × V) → List (Bytes × V)
put_sql name v [] = []
put_sql name v ((key, w) ∷ rest) =
    if bytes_eq key name then (key, v) ∷ rest else (key, w) ∷ put_sql name v rest

module _ {F Db Stmt : Type 0} (lib : SqliteLib F Db Stmt) where
  unfoldable pub bind_compiled_sql : Bytes → Bytes → Sqlite3 Db Stmt → Sqlite3 Db Stmt
  bind_compiled_sql sql_name sql s = record s {
    sql_map = s.sql_map ++ (sql_name, lib.prepare sql s.db) ∷ [];
  }

  -- The branches of the switch.
  unfoldable pub fmt_type : DataType → Option Stmt → ℕ → Sqlite3Data F → Sqlite3Data F
  fmt_type blob stmt index dat = record dat { text_data = lib.column_blob stmt index }
  fmt_type integer stmt index dat = record dat { int_data = lib.column_int stmt index }
  fmt_type double stmt index dat = record dat { double_data = lib.column_double stmt index }
  fmt_type text stmt index dat = record dat { text_data = lib.column_text stmt index }
  fmt_type dat_null stmt index dat = dat
  fmt_type other_type stmt index dat = dat

  unfoldable pub fmt_data : Option Stmt → ℕ → Sqlite3Data F
  unfolding fmt_type
  fmt_data stmt index =
      let dat : Sqlite3Data F = record {
        text_data = [];
        double_data = lib.zero_double;
        int_data = ℤ.pos 0;
        type = lib.column_type stmt index;
      } in
      fmt_type dat.type stmt index dat

  -- The columns from `index` on, `left` of them.
  unfoldable pub read_columns : ℕ → ℕ → Option Stmt → List (Sqlite3Data F)
  unfolding fmt_data
  read_columns zero index stmt = []
  read_columns (suc left) index stmt = fmt_data stmt index ∷ read_columns left (index + 1) stmt

  unfoldable pub read_row : Option Stmt → List (Sqlite3Data F)
  unfolding read_columns
  read_row stmt = read_columns (lib.column_count stmt) 0 stmt

  -- The loop over the rows, with what `sqlite3_step` gave; without fuel it goes on for ever.
  unfoldable pub collect :
      ℕ → Rows F → StepStatus × Db × Option Stmt → Outcome (Rows F × Db × Option Stmt)
  unfolding read_row
  collect fuel ret (done, d, stmt) = ok (ret, d, stmt)
  collect fuel ret (error, d, stmt) = ok ([], d, stmt)
  collect zero ret (row, d, stmt) = fault
  collect (suc fuel) ret (row, d, stmt) = collect fuel (ret ++ read_row stmt ∷ []) (lib.step d stmt)

  unfoldable pub get_data_from_stmt : ℕ → Db → Option Stmt → Outcome (Rows F × Db × Option Stmt)
  unfolding collect
  get_data_from_stmt fuel d stmt = collect fuel [] (lib.step d stmt)

  unfoldable pub bind_compiled_sql_param : ℕ → List (Value F) → Option Stmt → Option Stmt
  bind_compiled_sql_param index [] stmt = stmt
  bind_compiled_sql_param index (val ∷ arg) stmt =
      bind_compiled_sql_param (index + 1) arg (lib.bind index val stmt)

  -- The rest of a call once the statement is found.
  pub run_stmt :
      ℕ
      → Bytes
      → List (Value F)
      → Option Stmt
      → Sqlite3 Db Stmt
      → Outcome (Rows F × Sqlite3 Db Stmt)
  unfolding get_data_from_stmt bind_compiled_sql_param
  run_stmt fuel sql_name arg stmt s = do
    (res, d, ran) ← get_data_from_stmt fuel s.db (bind_compiled_sql_param 1 arg stmt)
    ok (res, record { db = d; sql_map = put_sql sql_name (lib.reset ran) s.sql_map })

  pub call_found :
      ℕ
      → Bytes
      → List (Value F)
      → Option (Option Stmt)
      → Sqlite3 Db Stmt
      → Outcome (Rows F × Sqlite3 Db Stmt)
  unfolding run_stmt
  call_found fuel sql_name arg none s = ok ([], s)
  call_found fuel sql_name arg (some stmt) s = run_stmt fuel sql_name arg stmt s

  pub call_compiled_sql :
      ℕ → Bytes → List (Value F) → Sqlite3 Db Stmt → Outcome (Rows F × Sqlite3 Db Stmt)
  unfolding call_found find_sql put_sql
  call_compiled_sql fuel sql_name arg s =
      call_found fuel sql_name arg (find_sql sql_name s.sql_map) s

  -- A statement for one run, which is finalized; a text that does not compile has no rows.
  unfoldable pub run_compiled :
      ℕ → Option Stmt → Sqlite3 Db Stmt → Outcome (Rows F × Sqlite3 Db Stmt)
  run_compiled fuel none s = ok ([], s)
  run_compiled fuel (some program) s = do
    (ret, d, ran) ← get_data_from_stmt fuel s.db (some program)
    ok (ret, record s { db = lib.finalize ran d })

  unfoldable pub run_sql : ℕ → Bytes → Sqlite3 Db Stmt → Outcome (Rows F × Sqlite3 Db Stmt)
  run_sql fuel sql s = run_compiled fuel (lib.prepare sql s.db) s
