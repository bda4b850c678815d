-- ===== src/App/Business.antt =====
-- The handlers for accounts of example/app/app_business.cpp: each reads the request's JSON, and answers by an
-- exception. The queries give as many columns as their text names.
use calabash.Base.{
  ℕ, ◌*◌, ℤ, eq_int, Bool, not, List, [], ◌∷◌, Bytes, codes, length, ltb, if◌then◌else◌,
}
use calabash.App.{Exception, Env}
use calabash.App.Act.{
  Act, ◌>>=◌, return, raise, lift, index_found, index, get_text_at, test_json_param, only_row,
  column, query, http, http_code, http_body,
}
use calabash.Sqlite3.{text_value, Sqlite3Data}
use calabash.Token.{issue, encode}

abbrev pub token_key : Bytes
token_key = codes "calabash_token_password"

-- How a column goes into the answer.
pub data Shown : Type 0 where
  as_text as_number as_truth : ℕ → Shown

abbrev pub is_nonzero : ℤ → Bool
is_nonzero z = not (eq_int z (ℤ.pos 0))

abbrev pub teacher_columns : List (Bytes × Shown)
teacher_columns =
    (codes "id", as_text 0)
    ∷ (codes "name", as_text 1)
    ∷ (codes "sex", as_text 2)
    ∷ (codes "age", as_number 3)
    ∷ (codes "tel", as_text 4)
    ∷ []

abbrev pub student_columns : List (Bytes × Shown)
student_columns =
    (codes "id", as_text 0)
    ∷ (codes "name", as_text 1)
    ∷ (codes "specialty", as_text 2)
    ∷ (codes "class", as_number 3)
    ∷ (codes "sex", as_text 4)
    ∷ (codes "tel", as_text 5)
    ∷ (codes "instructor", as_text 7)
    ∷ (codes "mentor", as_text 8)
    ∷ []

abbrev pub leave_columns : List (Bytes × Shown)
leave_columns =
    (codes "inform_id", as_number 0)
    ∷ (codes "student_id", as_text 1)
    ∷ (codes "mentor_id", as_text 2)
    ∷ (codes "instructor_id", as_text 3)
    ∷ (codes "leave_type", as_text 4)
    ∷ (codes "leave_reason", as_text 5)
    ∷ (codes "time_begin", as_text 6)
    ∷ (codes "time_end", as_text 7)
    ∷ (codes "is_school", as_truth 8)
    ∷ (codes "status", as_number 9)
    ∷ []

-- Eight digits or so make a teacher's number, ten a student's.
abbrev pub is_teacher : Bytes → Bool
is_teacher user_id = ltb (length user_id) 10

module _ {J F D : Type 0} (env : Env J F D) where
  unfoldable pub show_column : Shown → List (Sqlite3Data F) → Act J D J
  show_column (as_text i) row = do dat ← column i row; return (env.json.text dat.text_data)
  show_column (as_number i) row = do dat ← column i row; return (env.json.number dat.int_data)
  show_column (as_truth i) row = do
    dat ← column i row
    return (env.json.truth (is_nonzero dat.int_data))

  unfoldable pub show_fields :
      List (Bytes × Shown) → List (Sqlite3Data F) → Act J D (List (Bytes × J))
  unfolding show_column
  show_fields [] row = return []
  show_fields ((name, shown) ∷ rest) row = do
    v ← show_column shown row
    vs ← show_fields rest row
    return ((name, v) ∷ vs)

  unfoldable pub show_row : List (Bytes × Shown) → List (Sqlite3Data F) → Act J D J
  unfolding show_fields
  show_row columns row = do fields ← show_fields columns row; return (env.json.object fields)

  abbrev pub not_found_user : Exception J
  not_found_user = http env.json 404 (codes "not found user")

  -- The answer with the one row of a query.
  unfoldable pub answer_info : Bytes → List (Bytes × Shown) → Bytes → Act J D Unit
  unfolding show_row only_row
  answer_info name columns id = do
    db_res ← query env name (text_value id ∷ [])
    row ← only_row env.json not_found_user db_res
    data_json ← show_row columns row
    raise (http_body env.json (env.json.object ((codes "data", data_json) ∷ [])))

  unfoldable pub app_self : J → Act J D Unit
  unfolding answer_info get_text_at
  app_self body = do
    user_id ← get_text_at env.json (codes "user") body
    if is_teacher user_id
        then answer_info (codes "teacher_info") teacher_columns user_id
        else answer_info (codes "student_info") student_columns user_id

  unfoldable pub app_student_info : J → Act J D Unit
  unfolding answer_info get_text_at test_json_param
  app_student_info body = do
    user_id ← get_text_at env.json (codes "user") body
    lost ← test_json_param env.json (codes "id" ∷ []) body
    if is_teacher user_id
        then (do
          id ← get_text_at env.json (codes "id") body
          answer_info (codes "student_info") student_columns id)
        else raise (http env.json 403 (codes "You must be teacher."))

  -- `db_res[0][0].text_data != req_body["password"]`, in JSON; then the answer with a token.
  unfoldable pub check_password : J → List (Sqlite3Data F) → Act J D Unit
  unfolding index_found get_text_at
  check_password body row = do
    stored ← column 0 row
    given ← index env.json (codes "password") body
    if not (env.json.same (env.json.text stored.text_data) given)
        then raise (http_code env.json 202 400 (codes "Accepted, password error or no that user."))
        else (do
          user ← get_text_at env.json (codes "user") body
          token ← lift (
              encode env.calendar env.beyond
                (issue env.calendar env.beyond user (24 * 3600) env.now env.later) token_key)
          raise (http_body env.json (env.json.object ((codes "token", env.json.text token) ∷ []))))

  unfoldable pub app_login : J → Act J D Unit
  unfolding check_password test_json_param get_text_at only_row
  app_login body = do
    lost ← test_json_param env.json (codes "user" ∷ codes "password" ∷ []) body
    user ← get_text_at env.json (codes "user") body
    db_res ←
        query env (if is_teacher user then codes "teacher_password" else codes "student_password")
          (text_value user ∷ [])
    row ←
        only_row env.json
          (http_code env.json 202 400 (codes "Accepted, password error or no that user.")) db_res
    check_password body row
