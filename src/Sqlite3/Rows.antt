-- ===== src/Sqlite3/Rows.antt =====
-- The rows that `Sqlite3::GetDataFromStmt` reads.
use calabash.Base.{
  ◌∙◌, ap, ◌+◌, some, get_elem?, ◌<◌, ℕ, zero, suc, ◌≡◌, ◌≤◌, ◌++◌, [], ◌∷◌, Bool, true, false,
  Option, ok, length, append-nil, append_assoc, refl, arith,
}
use calabash.Sqlite3.{
  Rows, SqliteLib, StepStatus, row, done, error, collect, read_row, read_columns, fmt_data,
  get_data_from_stmt,
}

module _ {F Db Stmt : Type 0} (lib : SqliteLib F Db Stmt) where
  -- The steps of a statement: the rows it gives, whether it ends as it should, and what it leaves.
  pub data Run : StepStatus × Db × Option Stmt → Rows F → Bool → Db → Option Stmt → Type 0 where
    finished : (d : Db) (stmt : Option Stmt) → Run (done, d, stmt) [] true d stmt
    broken : (d : Db) (stmt : Option Stmt) → Run (error, d, stmt) [] false d stmt
    next :
        (d last : Db) (stmt left : Option Stmt) (rows : Rows F) (fine : Bool)
        → Run (lib.step d stmt) rows fine last left
        → Run (row, d, stmt) (read_row lib stmt ∷ rows) fine last left

  -- What the rows are once the statement has ended.
  abbrev pub result : Bool → Rows F → Rows F
  result true rows = rows
  result false rows = []

  pub collect-Run :
      {r : StepStatus × Db × Option Stmt} {rows : Rows F} {fine : Bool} {last : Db}
      {left : Option Stmt} (fuel : ℕ) (ret : Rows F)
      → Run r rows fine last left
      → length rows ≤ fuel
      → collect lib fuel ret r ≡ ok (result fine (ret ++ rows), last, left)
  unfolding collect
  collect-Run fuel ret (finished d stmt) h = simp append-nil
  collect-Run fuel ret (broken d stmt) h = refl
  collect-Run zero ret (next d last stmt left rows fine run) h = absurd (omega arith)
  collect-Run (suc fuel) ret (next d last stmt left rows fine run) h =
      rw append_assoc at (collect-Run fuel (ret ++ read_row lib stmt ∷ []) run (omega arith))

  pub get_data_from_stmt-Run :
      {rows : Rows F} {fine : Bool} {last : Db} {left : Option Stmt} (fuel : ℕ) (d : Db)
      (stmt : Option Stmt)
      → Run (lib.step d stmt) rows fine last left
      → length rows ≤ fuel
      → get_data_from_stmt lib fuel d stmt ≡ ok (result fine rows, last, left)
  unfolding get_data_from_stmt
  get_data_from_stmt-Run fuel d stmt run h = collect-Run fuel [] run h

  pub length-read_columns :
      (left index : ℕ) (stmt : Option Stmt) → length (read_columns lib left index stmt) ≡ left
  unfolding read_columns
  length-read_columns zero index stmt = refl
  length-read_columns (suc left) index stmt =
      omega (arith, length-read_columns left (index + 1) stmt)

  -- Column i of a row is what `FmtData` reads there.
  pub read_columns-elem :
      (left index i : ℕ) (stmt : Option Stmt)
      → i < left
      → get_elem? (read_columns lib left index stmt) i ≡ some (fmt_data lib stmt (index + i))
  unfolding read_columns
  read_columns-elem zero index i stmt h = absurd (omega arith)
  read_columns-elem (suc left) index zero stmt h =
      ap (λ (k : ℕ). some (fmt_data lib stmt k)) (omega arith)
  read_columns-elem (suc left) index (suc i) stmt h =
      let e : index + suc i ≡ index + 1 + i = omega arith in
      rw e (read_columns-elem left (index + 1) i stmt (omega arith))

  -- A row has a value for each column, read by its type; a call never reads another field.
  pub read_row-columns :
      (stmt : Option Stmt) (i : ℕ)
      → i < lib.column_count stmt
      → (length (read_row lib stmt) ≡ lib.column_count stmt)
        × (get_elem? (read_row lib stmt) i ≡ some (fmt_data lib stmt i))
  unfolding read_row
  read_row-columns stmt i h = (
    length-read_columns (lib.column_count stmt) 0 stmt,
    read_columns-elem (lib.column_count stmt) 0 i stmt h
        ∙ ap (λ (k : ℕ). some (fmt_data lib stmt k)) (omega arith),
  )
