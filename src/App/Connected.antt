-- ===== src/App/Connected.antt =====
-- The handlers on the connection that `DataBaseInit` leaves: the application, the wrapper and the
-- statements together.
use calabash.Base.{ℕ, ◌≤◌, ◌≡◌, refl, true, false, Option, some, List, [], ◌∷◌, Bytes, codes, ok}
use calabash.App.{Env, raised, got}
use calabash.App.Act.{http_body, get_text_at, index_found, only_row}
use calabash.App.Business.{app_self, answer_info, show_row, show_fields, show_column, is_teacher}
use calabash.App.Statements.{bind_each, statements, fresh}
use calabash.Sqlite3.{
  SqliteLib, Sqlite3, Sqlite3Data, text_value, find_sql, bind_compiled_sql, call_compiled_sql,
}
use calabash.Sqlite3.Calls.{start, after_call, call_compiled_sql-Run}
use calabash.Sqlite3.Rows.{Run}

module _ {J F Db Stmt : Type 0} (lib : SqliteLib F Db Stmt) (fuel : ℕ)
    (env : Env J F (Sqlite3 Db Stmt)) where
  -- The connection of the wrapper.
  abbrev pub connected : Env J F (Sqlite3 Db Stmt)
  connected = record env { call = call_compiled_sql lib fuel }

  -- The connection after `DataBaseInit`, over a database with its tables.
  abbrev pub initialised : Db → Sqlite3 Db Stmt
  initialised d = bind_each lib statements (fresh lib d)

  abbrev pub student_text : Bytes
  student_text = codes "SELECT * FROM students WHERE id = ?1"

  -- How a student is shown.
  abbrev pub student_json : (ℕ → Sqlite3Data F) → J
  student_json cell =
      let text = λ (i : ℕ). env.json.text (cell i).text_data in
      env.json.object (
        (codes "id", text 0)
        ∷ (codes "name", text 1)
        ∷ (codes "specialty", text 2)
        ∷ (codes "class", env.json.number (cell 3).int_data)
        ∷ (codes "sex", text 4)
        ∷ (codes "tel", text 5)
        ∷ (codes "instructor", text 7)
        ∷ (codes "mentor", text 8)
        ∷ [])

  -- The nine columns of the table of students.
  abbrev pub row_of : (ℕ → Sqlite3Data F) → List (Sqlite3Data F)
  row_of cell = cell 0 ∷ cell 1 ∷ cell 2 ∷ cell 3 ∷ cell 4 ∷ cell 5 ∷ cell 6 ∷ cell 7 ∷ cell 8 ∷ []

  bound :
      (d : Db)
      → find_sql (codes "student_info") (initialised d).sql_map ≡ some (lib.prepare student_text d)
  unfolding bind_each bind_compiled_sql find_sql
  bound d = refl

  -- A student asks for itself on the connection that `DataBaseInit` leaves. Where the text that is
  -- bound to "student_info", with the student's number as its first parameter, gives one row of nine
  -- columns, and the fuel is at least 1, the answer shows the row's columns but the password, and the
  -- statement is reset.
  pub app_self-student :
      (body u : J) (user : Bytes) (cell : ℕ → Sqlite3Data F) (d last : Db) (left : Option Stmt)
      → env.json.find (codes "user") body ≡ some u
      → env.json.get_text u ≡ got user
      → is_teacher user ≡ false
      → Run lib
          (lib.step d (start lib (text_value user ∷ []) (lib.prepare student_text d)))
          (row_of cell ∷ [])
          true
          last
          left
      → 1 ≤ fuel
      → app_self connected body (initialised d)
        ≡ ok (
          raised (http_body env.json (env.json.object ((codes "data", student_json cell) ∷ []))),
          after_call lib (codes "student_info") last left (initialised d),
        )
  unfolding app_self answer_info show_row show_fields show_column get_text_at index_found only_row
      bind_each
  app_self-student body u user cell d last left has_user is_text student run enough =
      rw
        (
          has_user,
          is_text,
          student,
          call_compiled_sql-Run lib fuel (codes "student_info") (text_value user ∷ [])
              (lib.prepare student_text d) (initialised d) (bound d) run enough,
        )
        refl
