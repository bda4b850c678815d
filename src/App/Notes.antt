-- ===== src/App/Notes.antt =====
-- The handlers of example/app/app_business.cpp that file, release and approve leaves.
use calabash.Base.{
  ℕ, ◌+◌, ◌*◌, ◌/◌, ◌==◌, ℤ, add_ℕ, minus, int, eq_int, bits_of, Bool, true, false, not, ◌&&◌, ◌||◌,
  List, [], ◌∷◌, Bytes, bytes_eq, codes, ltb, if◌then◌else◌,
}
use calabash.App.{Env}
use calabash.App.Act.{
  Act, ◌>>=◌, return, raise, lift, get_text_at, get_bool_at, get_int_at, test_json_param, only_row,
  column, query, http, http_code,
}
use calabash.Leave.{StudentStatus, of_status, status, decision, pending_approval, bit, is_passed}
use calabash.Sqlite3.{Value, int_value, text_value}

-- `is_junior_` shares the first byte of `mentor_`.
unfoldable pub set_junior : Bool → StudentStatus → StudentStatus
set_junior is_junior s = record s { mentor = s.mentor / 256 * 256 + bit is_junior }

abbrev pub new_status : StudentStatus
new_status = record {
  instructor = pending_approval;
  mentor = pending_approval;
  is_destroyed = false;
}

abbrev pub leave_params : List Bytes
leave_params =
    codes "leave_type"
    ∷ codes "leave_reason"
    ∷ codes "time_begin"
    ∷ codes "time_end"
    ∷ codes "is_school"
    ∷ []

module _ {J F D : Type 0} (env : Env J F D) where
  -- The year in which the class ends, and the test on the clock; `int` arithmetic may overflow.
  unfoldable pub is_graduate : ℤ → Act J D Bool
  is_graduate class_data = do
    graduate_year ← lift (int (add_ℕ class_data 4))
    since ← lift (int (minus env.tm_year graduate_year))
    return (eq_int since (ℤ.pos 0) || (eq_int since (ℤ.pos 1) && ltb 8 env.tm_mon))

  abbrev pub status_value : StudentStatus → Value F
  status_value s = int_value (ℤ.pos (status s))

  unfoldable pub app_leave : J → Act J D Unit
  unfolding is_graduate set_junior get_text_at get_bool_at test_json_param only_row
  app_leave body = do
    user_id ← get_text_at env.json (codes "user") body
    lost ← test_json_param env.json leave_params body
    db_res ← query env (codes "student_info") (text_value user_id ∷ [])
    row ← only_row env.json (http env.json 404 (codes "Not found student's teachers")) db_res
    mentor ← column 8 row
    instructor ← column 7 row
    leave_type ← get_text_at env.json (codes "leave_type") body
    leave_reason ← get_text_at env.json (codes "leave_reason") body
    time_begin ← get_text_at env.json (codes "time_begin") body
    time_end ← get_text_at env.json (codes "time_end") body
    is_school ← get_bool_at env.json (codes "is_school") body
    class_column ← column 3 row
    graduate ← is_graduate class_column.int_data
    nothing ← query env (codes "insert_leave_info") (
        text_value user_id
        ∷ text_value mentor.text_data
        ∷ text_value instructor.text_data
        ∷ text_value leave_type
        ∷ text_value leave_reason
        ∷ text_value time_begin
        ∷ text_value time_end
        ∷ int_value (ℤ.pos (bit is_school))
        ∷ status_value (set_junior (not graduate) new_status)
        ∷ [])
    return tt

  abbrev pub update_status : ℤ → StudentStatus → Act J D Unit
  update_status note_id s = do
    nothing ← query env (codes "update_leave_info_status") (int_value note_id ∷ status_value s ∷ [])
    return tt

  -- The rest of `app_release` for a leave with that status.
  unfoldable pub release_status : ℤ → StudentStatus → Act J D Unit
  release_status note_id s =
      if not (is_passed s)
      then raise (http_code env.json 200 403 (codes "status must be passed."))
      else update_status note_id (record s { is_destroyed = true })

  unfoldable pub app_release : J → Act J D Unit
  unfolding release_status get_text_at get_int_at test_json_param only_row
  app_release body = do
    user_id ← get_text_at env.json (codes "user") body
    lost ← test_json_param env.json (codes "note_id" ∷ []) body
    note_id ← get_int_at env.json (codes "note_id") body
    db_res ← query env (codes "select_leave_status") (int_value note_id ∷ [])
    row ← only_row env.json (http env.json 404 (codes "Not found leave info")) db_res
    dat ← column 0 row
    release_status note_id (of_status (bits_of dat.int_data))

  -- One teacher's part of an approval: the number that the status gets.
  unfoldable pub decide : Bool → J → ℕ → Act J D ℕ
  unfolding get_bool_at
  decide mine body current =
      if not mine
      then return current
      else if not (current == pending_approval)
      then raise (http_code env.json 200 403 (codes "status must be pending approval."))
      else (do approves ← get_bool_at env.json (codes "status") body; return (decision approves))

  -- The rest of `app_approval`, for a leave with that status and these teachers.
  unfoldable pub approve_status : J → Bytes → ℤ → StudentStatus → Bytes → Bytes → Act J D Unit
  approve_status body user_id note_id s instructor_id mentor_id =
      let is_instructor = bytes_eq user_id instructor_id in
      let is_mentor = bytes_eq user_id mentor_id in
      if not is_instructor && not is_mentor
      then raise (http env.json 403 (codes "No permissions, you must be leave's teacher."))
      else (do
        i ← decide is_instructor body s.instructor
        m ← decide is_mentor body s.mentor
        update_status note_id (record s { instructor = i; mentor = m }))

  unfoldable pub app_approval : J → Act J D Unit
  unfolding approve_status get_text_at get_int_at test_json_param only_row
  app_approval body = do
    user_id ← get_text_at env.json (codes "user") body
    lost ← test_json_param env.json (codes "note_id" ∷ codes "status" ∷ []) body
    note_id ← get_int_at env.json (codes "note_id") body
    db_res ← query env (codes "select_leave_status_teachers") (int_value note_id ∷ [])
    row ← only_row env.json (http env.json 404 (codes "Not found this leave.")) db_res
    dat ← column 0 row
    instructor ← column 1 row
    mentor ← column 2 row
    approve_status body user_id note_id (of_status (bits_of dat.int_data)) instructor.text_data
        mentor.text_data
