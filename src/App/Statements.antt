-- ===== src/App/Statements.antt =====
-- `StudentMangeServer::DataBaseInit` of example/app/student_mange_server.cpp, with the tables of
-- example/app/inc, on the connection of the module Sqlite3. The tables are not dropped: the macro for
-- it is not defined.
use calabash.Base.{
  All-mono, ℕ, ◌≡◌, refl, Option, some, Bool, List, [], ◌∷◌, ◌≤◌, length, Bytes, codes, All,
  Outcome, ok, ◌>>=◌,
}
use calabash.Sqlite3.{
  Rows, Value, Sqlite3, SqliteLib, bind_compiled_sql, run_sql, find_sql, call_compiled_sql,
}
use calabash.Sqlite3.Calls.{start, after_call, call_compiled_sql-Run}
use calabash.Sqlite3.Rows.{Run, result}

abbrev pub table_students : Bytes
table_students =
    codes
      "CREATE TABLE IF NOT EXISTS students (\n  id TEXT PRIMARY KEY,\n  name TEXT NOT NULL,\n  specialty TEXT NOT NULL,\n  class INTEGER NOT NULL,\n  sex TEXT NOT NULL,\n  tel TEXT NOT NULL,\n  password TEXT NOT NULL,\n  instructor_id TEXT NOT NULL,\n  mentor_id TEXT NOT NULL\n)"

abbrev pub table_teachers : Bytes
table_teachers =
    codes
      "CREATE TABLE IF NOT EXISTS teachers (\n  id TEXT PRIMARY KEY,\n  name TEXT NOT NULL,\n  sex TEXT NOT NULL,\n  age INTEGER,\n  tel TEXT,\n  password TEXT NOT NULL\n)"

abbrev pub table_leave_info : Bytes
table_leave_info =
    codes
      "CREATE TABLE IF NOT EXISTS leave_info(\n  inform_id INTEGER PRIMARY KEY AUTOINCREMENT,\n  student_id TEXT NOT NULL,\n  mentor_id TEXT NOT NULL,\n  instructor_id TEXT NOT NULL,\n  leave_type TEXT NOT NULL,\n  leave_reason TEXT NOT NULL,\n  time_begin TEXT NOT NULL,\n  time_end TEXT NOT NULL,\n  is_school INTEGER NOT NULL,\n  status INTEGER NOT NULL\n)"

abbrev pub statements : List (Bytes × Bytes)
statements =
    (
      codes "insert_student",
      codes
          "INSERT INTO students(id, name, specialty, class, sex, tel, password, instructor_id, mentor_id)VALUES (?1, ?2, ?3, ?4, ?5, ?6, ?7, ?8, ?9)",
    )
    ∷ (
      codes "insert_teacher",
      codes
          "INSERT INTO teachers(id, name, sex, age, tel, password)VALUES (?1, ?2, ?3, ?4, ?5, ?6)",
    )
    ∷ (
      codes "insert_leave_info",
      codes
          "INSERT INTO leave_info(student_id, mentor_id, instructor_id, leave_type, leave_reason, time_begin, time_end, is_school, status)VALUES (?1, ?2, ?3, ?4, ?5, ?6, ?7, ?8, ?9)",
    )
    ∷ (codes "student_info", codes "SELECT * FROM students WHERE id = ?1")
    ∷ (codes "student_password", codes "SELECT password FROM students WHERE id = ?1")
    ∷ (codes "teacher_info", codes "SELECT * FROM teachers WHERE id = ?1")
    ∷ (codes "teacher_password", codes "SELECT password FROM teachers WHERE id = ?1")
    ∷ (codes "select_leave_status", codes "SELECT status FROM leave_info WHERE inform_id = ?1")
    ∷ (
      codes "select_leave_status_teachers",
      codes "SELECT status, instructor_id, mentor_id FROM leave_info WHERE inform_id = ?1",
    )
    ∷ (
      codes "update_leave_info_status",
      codes "UPDATE leave_info SET status = ?2 WHERE inform_id = ?1",
    )
    ∷ (
      codes "select_leave_info_instructor",
      codes "SELECT * FROM leave_info WHERE instructor_id = ?1",
    )
    ∷ (codes "select_leave_info_mentor", codes "SELECT * FROM leave_info WHERE mentor_id = ?1")
    ∷ (codes "select_leave_info_student", codes "SELECT * FROM leave_info WHERE student_id = ?1")
    ∷ []

module _ {F Db Stmt : Type 0} (lib : SqliteLib F Db Stmt) where
  unfoldable pub bind_each : List (Bytes × Bytes) → Sqlite3 Db Stmt → Sqlite3 Db Stmt
  unfolding bind_compiled_sql
  bind_each [] s = s
  bind_each ((name, sql) ∷ rest) s = bind_each rest (bind_compiled_sql lib name sql s)

  pub data_base_init : ℕ → Sqlite3 Db Stmt → Outcome (Sqlite3 Db Stmt)
  unfolding bind_each
  data_base_init fuel s = do
    (none1, s) ← run_sql lib fuel table_students s
    (none2, s) ← run_sql lib fuel table_teachers s
    (none3, s) ← run_sql lib fuel table_leave_info s
    ok (bind_each statements s)

  -- Each name finds its own text, compiled against the database with its three tables.
  abbrev pub AllBound : Sqlite3 Db Stmt → Type 0
  AllBound s = All (λ e. find_sql e.0 s.sql_map ≡ some (lib.prepare e.1 s.db)) statements

  bind_each-AllBound : (d : Db) → AllBound (bind_each statements (record { db = d; sql_map = [] }))
  unfolding bind_each bind_compiled_sql find_sql
  bind_each-AllBound d = (
    refl,
    (
      refl,
      (refl, (refl, (refl, (refl, (refl, (refl, (refl, (refl, (refl, (refl, (refl, tt))))))))))),
    ),
  )

  abbrev pub fresh : Db → Sqlite3 Db Stmt
  fresh d = record { db = d; sql_map = [] }

  bind_each-db : (d : Db) → (bind_each statements (fresh d)).db ≡ d
  unfolding bind_each bind_compiled_sql
  bind_each-db d = refl

  -- A call of that name runs that text, with the arguments bound in their order, and returns the
  -- rows that the statement gives.
  abbrev pub Runs : ℕ → Sqlite3 Db Stmt → Bytes × Bytes → Type 0
  Runs fuel s (name, sql) =
      (arg : List (Value F)) (rows : Rows F) (fine : Bool) (d : Db) (left : Option Stmt)
      → Run lib (lib.step s.db (start lib arg (lib.prepare sql s.db))) rows fine d left
      → length rows ≤ fuel
      → call_compiled_sql lib fuel name arg s
        ≡ ok (result lib fine rows, after_call lib name d left s)

  -- On a fresh connection on which the three statements that make the tables run to an end,
  -- `DataBaseInit` ends too, and then a call of every name that it binds runs the text of that
  -- name, with the arguments bound: where the statement gives no more rows than
  -- the fuel, the call returns its rows, or none where a step failed.
  pub data_base_init-Runs :
      (fuel : ℕ) (d0 d1 d2 d3 : Db) (r1 r2 r3 : Rows F)
      → run_sql lib fuel table_students (fresh d0) ≡ ok (r1, fresh d1)
      → run_sql lib fuel table_teachers (fresh d1) ≡ ok (r2, fresh d2)
      → run_sql lib fuel table_leave_info (fresh d2) ≡ ok (r3, fresh d3)
      → (s : Sqlite3 Db Stmt) × (data_base_init fuel (fresh d0) ≡ ok s)
        × (s.db ≡ d3)
        × All (Runs fuel s) statements
  unfolding data_base_init
  data_base_init-Runs fuel d0 d1 d2 d3 r1 r2 r3 e1 e2 e3 =
      let s = bind_each statements (fresh d3) in
      (
        s,
        rw (e1, e2, e3) refl,
        bind_each-db d3,
        All-mono _ (Runs fuel s)
            (λ e bound arg rows fine d left run enough.
              call_compiled_sql-Run lib fuel e.0 arg (lib.prepare e.1 s.db) s bound run enough)
            statements (bind_each-AllBound d3),
      )
