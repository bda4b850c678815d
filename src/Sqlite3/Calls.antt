-- ===== src/Sqlite3/Calls.antt =====
-- `Sqlite3::BindCompiledSQL` and `CallCompiledSQL`.
use calabash.Base.{
  bytes_eq_iff, ◌+◌, ℕ, ◌≡◌, ◌≢◌, ◌≤◌, ◌++◌, ◌∷◌, [], Bool, false, Bytes, List, Option, some, none,
  ok, length, bytes_eq, bytes_eq_refl, refl, arith, inl, inr, Bool-cases,
}
use calabash.Sqlite3.{
  Rows, Value, Sqlite3, SqliteLib, find_sql, put_sql, bind_compiled_sql, bind_compiled_sql_param,
  run_stmt, call_found, call_compiled_sql,
}
use calabash.Sqlite3.Rows.{Run, broken, result, get_data_from_stmt-Run}

module _ {ℓ} {V : Type ℓ} where
  pub find_sql-append :
      (name : Bytes) (v : V) (map : List (Bytes × V))
      → find_sql name map ≡ none
      → find_sql name (map ++ (name, v) ∷ []) ≡ some v
  unfolding find_sql
  find_sql-append name v [] h = rw bytes_eq_refl refl
  find_sql-append name v ((key, w) ∷ map) h = elim (Bool-cases (bytes_eq key name)) [
    | inl e ↦ absurd (ground (arith, e, h))
    | inr e ↦ ground (arith, e, h, find_sql-append name v map)
  ]

  -- A name that is bound again keeps its first statement.
  pub find_sql-first :
      (name key : Bytes) (v w : V) (map : List (Bytes × V))
      → find_sql name map ≡ some w
      → find_sql name (map ++ (key, v) ∷ []) ≡ some w
  unfolding find_sql
  find_sql-first name key v w [] h = absurd (cc)
  find_sql-first name key v w ((other, u) ∷ map) h = elim (Bool-cases (bytes_eq other name)) [
    | inl e ↦ ground (arith, e, h)
    | inr e ↦ ground (arith, e, h, find_sql-first name key v w map)
  ]

  -- A statement that a call leaves is found under its name.
  pub find_sql-put_sql :
      (name : Bytes) (v w : V) (map : List (Bytes × V))
      → find_sql name map ≡ some w
      → find_sql name (put_sql name v map) ≡ some v
  unfolding find_sql put_sql
  find_sql-put_sql name v w [] h = absurd (cc)
  find_sql-put_sql name v w ((other, u) ∷ map) h = elim (Bool-cases (bytes_eq other name)) [
    | inl e ↦ ground (arith, e)
    | inr e ↦ ground (arith, e, h, find_sql-put_sql name v w map)
  ]

  pub find_sql-put_other :
      (name key : Bytes) (v : V) (map : List (Bytes × V))
      → name ≢ key
      → find_sql key (put_sql name v map) ≡ find_sql key map
  unfolding find_sql put_sql
  find_sql-put_other name key v [] h = refl
  find_sql-put_other name key v ((other, u) ∷ map) h =
      ground (
        arith,
        bytes_eq_iff other name,
        bytes_eq_iff other key,
        find_sql-put_other name key v map h,
      )

module _ {F Db Stmt : Type 0} (lib : SqliteLib F Db Stmt) where
  -- The statement as `CallCompiledSQL` starts it: the arguments bound from 1 on.
  abbrev pub start : List (Value F) → Option Stmt → Option Stmt
  start arg stmt = bind_compiled_sql_param lib 1 arg stmt

  abbrev pub after_call : Bytes → Db → Option Stmt → Sqlite3 Db Stmt → Sqlite3 Db Stmt
  after_call name d left s = record { db = d; sql_map = put_sql name (lib.reset left) s.sql_map }

  -- Where the name is bound, and the statement with its parameters bound gives no more rows than
  -- the fuel, a call returns these rows in their order, or none where a step failed; the map
  -- keeps the statement reset, and the database is the one that the last step left.
  pub call_compiled_sql-Run :
      {rows : Rows F} {fine : Bool} {d : Db} {left : Option Stmt} (fuel : ℕ) (name : Bytes)
      (arg : List (Value F)) (stmt : Option Stmt) (s : Sqlite3 Db Stmt)
      → find_sql name s.sql_map ≡ some stmt
      → Run lib (lib.step s.db (start arg stmt)) rows fine d left
      → length rows ≤ fuel
      → call_compiled_sql lib fuel name arg s ≡ ok (result lib fine rows, after_call name d left s)
  unfolding call_compiled_sql call_found run_stmt
  call_compiled_sql-Run fuel name arg stmt s bound run h =
      rw bound (rw (get_data_from_stmt-Run lib fuel s.db (start arg stmt) run h) refl)

  pub bind_compiled_sql_param-null :
      (index : ℕ) (arg : List (Value F)) → bind_compiled_sql_param lib index arg none ≡ none
  unfolding bind_compiled_sql_param
  bind_compiled_sql_param-null index [] = refl
  bind_compiled_sql_param-null index (val ∷ arg) =
      rw (lib.bind-null index val) (bind_compiled_sql_param-null (index + 1) arg)

  -- A null statement gives no rows, whatever is bound to it.
  pub start-null :
      (arg : List (Value F)) (d : Db) → Run lib (lib.step d (start arg none)) [] false d none
  start-null arg d = rw (bind_compiled_sql_param-null 1 arg, lib.step-null d) (broken d none)

  -- A call of a name that nobody bound has no rows and changes nothing; and after a text that
  -- does not compile is bound to it, a call has no rows and leaves the database as it was.
  pub call_compiled_sql-unbound :
      (fuel : ℕ) (name sql : Bytes) (arg : List (Value F)) (s : Sqlite3 Db Stmt)
      → find_sql name s.sql_map ≡ none
      → lib.prepare sql s.db ≡ none
      → (call_compiled_sql lib fuel name arg s ≡ ok ([], s))
        × (call_compiled_sql lib fuel name arg (bind_compiled_sql lib name sql s)
            ≡ ok ([], after_call name s.db none (bind_compiled_sql lib name sql s)))
  unfolding call_compiled_sql call_found bind_compiled_sql
  call_compiled_sql-unbound fuel name sql arg s free bad =
      let bound : find_sql name (s.sql_map ++ (name, lib.prepare sql s.db) ∷ []) ≡ some none =
        rw bad (find_sql-append name none s.sql_map free) in
      (
        rw free refl,
        call_compiled_sql-Run fuel name arg none (bind_compiled_sql lib name sql s) bound
            (start-null arg s.db) (omega arith),
      )

  -- The first text bound to a name serves every later call of it, also when another text is bound
  -- to the name afterwards: such a call runs the first text's statement.
  pub call_compiled_sql-bound :
      {rows : Rows F} {fine : Bool} {d : Db} {left : Option Stmt} (fuel : ℕ)
      (name sql again : Bytes) (arg : List (Value F)) (s : Sqlite3 Db Stmt)
      → find_sql name s.sql_map ≡ none
      → Run lib (lib.step s.db (start arg (lib.prepare sql s.db))) rows fine d left
      → length rows ≤ fuel
      → let t = bind_compiled_sql lib name again (bind_compiled_sql lib name sql s) in
        call_compiled_sql lib fuel name arg t ≡ ok (result lib fine rows, after_call name d left t)
  unfolding bind_compiled_sql
  call_compiled_sql-bound fuel name sql again arg s free run h =
      let first = find_sql-append name (lib.prepare sql s.db) s.sql_map free in
      call_compiled_sql-Run fuel name arg (lib.prepare sql s.db)
        (bind_compiled_sql lib name again (bind_compiled_sql lib name sql s))
        (find_sql-first name name (lib.prepare again s.db) (lib.prepare sql s.db)
          (s.sql_map ++ (name, lib.prepare sql s.db) ∷ []) first)
        run h
