-- ===== src/App/Search.antt =====
-- The handlers of example/app/app_business.cpp that list leaves.
use calabash.Base.{
  ℕ, suc, zero, ◌+◌, ◌-◌, ◌*◌, ℤ, int, bits_of, at_least_one, Option, some, none, List, [], ◌∷◌,
  Bytes, codes, length, get_elem?, is_empty, if◌then◌else◌,
}
use calabash.App.{Env}
use calabash.App.Business.{is_teacher, show_row, leave_columns}
use calabash.App.Act.{Act, ◌>>=◌, return, raise, lift, get_text_at, get_int_at, query, http_body}
use calabash.Sqlite3.{text_value, Sqlite3Data, Rows}

module _ {J F D : Type 0} (env : Env J F D) where
  -- A teacher's leaves as instructor, or as mentor where there are none; a student's own.
  unfoldable pub or_mentor : Bytes → Rows F → Act J D (Rows F)
  or_mentor user_id db_res =
      if is_empty db_res
      then query env (codes "select_leave_info_mentor") (text_value user_id ∷ [])
      else return db_res

  unfoldable pub find_leaves : Bytes → Act J D (Rows F)
  unfolding or_mentor
  find_leaves user_id =
      if is_teacher user_id
      then (do
        db_res ← query env (codes "select_leave_info_instructor") (text_value user_id ∷ [])
        or_mentor user_id db_res)
      else query env (codes "select_leave_info_student") (text_value user_id ∷ [])

  -- One round of the loop over a page, with what the round after it does.
  unfoldable pub push_next : Option (List (Sqlite3Data F)) → (J → Act J D J) → J → Act J D J
  unfolding show_row
  push_next none rest j = return j
  push_next (some row) rest j = do
    leave ← show_row env leave_columns row
    rest (env.json.push_back j leave)

  -- The loop: `left` is `ed - i`.
  unfoldable pub push_rows : ℕ → ℕ → Rows F → J → Act J D J
  unfolding push_next
  push_rows zero i db_res j = return j
  push_rows (suc left) i db_res j = push_next (get_elem? db_res i) (push_rows left (i + 1) db_res) j

  -- Both tests of the source look for "page".
  unfoldable pub page_of : Option J → J → Act J D (ℕ × ℕ)
  unfolding get_int_at
  page_of none body = return (1, 50)
  page_of (some page_json) body = do
    page ← get_int_at env.json (codes "page") body
    max_num ← get_int_at env.json (codes "max_num") body
    return (at_least_one page, at_least_one max_num)

  -- `{"data", {}}` is null until a row is pushed.
  unfoldable pub show_page : ℕ → ℕ → Rows F → Act J D Unit
  unfolding push_rows
  show_page page max_num db_res = do
    bg ← lift (int (ℤ.pos ((page - 1) * max_num)))
    ed ← lift (int (ℤ.pos (page * max_num)))
    rows ← push_rows (bits_of ed - bits_of bg) (bits_of bg) db_res env.json.null
    raise (http_body env.json (env.json.object ((codes "data", rows) ∷ [])))

  unfoldable pub app_search_leave : J → Act J D Unit
  unfolding page_of find_leaves show_page get_text_at
  app_search_leave body = do
    user_id ← get_text_at env.json (codes "user") body
    (page, max_num) ← page_of (env.json.find (codes "page") body) body
    db_res ← find_leaves user_id
    show_page page max_num db_res

  unfoldable pub app_search_leave_num : J → Act J D Unit
  unfolding find_leaves get_text_at
  app_search_leave_num body = do
    user_id ← get_text_at env.json (codes "user") body
    db_res ← find_leaves user_id
    raise (
        http_body env.json
          (env.json.object ((codes "num", env.json.number (ℤ.pos (length db_res))) ∷ [])))
