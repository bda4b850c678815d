-- ===== src/App/Leaves.antt =====
-- What the handlers do to the table of leaves, which is seen through the documented effect of the
-- statements that `DataBaseInit` binds.
pub mod Moves
pub mod Reads
pub mod Approval
pub mod History
pub mod Filing
pub mod Accounts
pub mod Looking
pub mod Junior
pub mod Decision
use calabash.Base.{
  ℕ, ◌+◌, ◌≡◌, ◌≢◌, refl, ℤ, eq_int, bits_of, Bool, true, false, ◌&&◌, Option, some, none, List, [],
  ◌∷◌, Bytes, codes, if◌then◌else◌, Outcome, ok, fault, throw,
}
use calabash.App.{Env, Did, returned, raised}
use calabash.Leave.{StudentStatus, of_status, decision, pending_approval, is_passed}
use calabash.Sqlite3.{Value, int_value, text_value, Sqlite3Data, Rows, integer, text}

-- The columns of a leave that the handlers read.
pub record LeaveRow : Type 0 where
  pub status_data : ℤ
  pub instructor_id : Bytes
  pub mentor_id : Bytes

abbrev pub status_of : LeaveRow → StudentStatus
status_of r = of_status (bits_of r.status_data)

abbrev pub number_cell : {F : Type 0} → F → ℤ → Sqlite3Data F
number_cell zero z = record { text_data = []; double_data = zero; int_data = z; type = integer }

abbrev pub text_cell : {F : Type 0} → F → Bytes → Sqlite3Data F
text_cell zero s = record { text_data = s; double_data = zero; int_data = ℤ.pos 0; type = text }

abbrev pub status_rows : {F : Type 0} → F → Option LeaveRow → Rows F
status_rows zero none = []
status_rows zero (some r) = (number_cell zero r.status_data ∷ []) ∷ []

abbrev pub teacher_rows : {F : Type 0} → F → Option LeaveRow → Rows F
teacher_rows zero none = []
teacher_rows zero (some r) =
    (number_cell zero r.status_data
      ∷ text_cell zero r.instructor_id
      ∷ text_cell zero r.mentor_id
      ∷ [])
    ∷ []

abbrev pub with_status : ℤ → Option LeaveRow → Option LeaveRow
with_status z none = none
with_status z (some r) = some (record r { status_data = z })

-- A SELECT with one text as its parameter leaves the database as it is.
abbrev pub Selects : {J F D : Type 0} → Env J F D → Bytes → Type 0
Selects {F = F} {D = D} env name =
    (id : Bytes) (d : D) → (rows : Rows F) × (env.call name (text_value id ∷ []) d ≡ ok (rows, d))

-- The table `leave_info` behind the connection: SELECT reads it by its primary key and leaves it,
-- UPDATE sets the status under a key, INSERT takes a key that is free.
pub record LeaveTable {J F D : Type 0} (env : Env J F D) : Type 0 where
  pub zero : F
  pub leave : D → ℤ → Option LeaveRow
  pub select_status :
      (id : ℤ) (d : D)
      → env.call (codes "select_leave_status") (int_value id ∷ []) d
        ≡ ok (status_rows zero (leave d id), d)
  pub select_teachers :
      (id : ℤ) (d : D)
      → env.call (codes "select_leave_status_teachers") (int_value id ∷ []) d
        ≡ ok (teacher_rows zero (leave d id), d)
  pub set_leave_status : ℤ → ℤ → D → D
  pub update :
      (id z : ℤ) (d : D)
      → env.call (codes "update_leave_info_status") (int_value id ∷ int_value z ∷ []) d
        ≡ ok ([], set_leave_status id z d)
  pub leave-set_leave_status :
      (id z i : ℤ) (d : D)
      → leave (set_leave_status id z d) i
        ≡ (if eq_int id i then with_status z (leave d i) else leave d i)
  pub student : D → Bytes → Rows F
  pub select_student :
      (id : Bytes) (d : D)
      → env.call (codes "student_info") (text_value id ∷ []) d ≡ ok (student d id, d)
  pub new_key : D → ℤ
  pub insert_leave : Bytes → Bytes → Bytes → Bytes → Bytes → Bytes → Bytes → ℤ → ℤ → D → D
  pub insert :
      (student_id mentor_id instructor_id leave_type leave_reason time_begin time_end : Bytes)
      (is_school z : ℤ) (d : D)
      → env.call
          (codes "insert_leave_info")
          (text_value student_id
            ∷ text_value mentor_id
            ∷ text_value instructor_id
            ∷ text_value leave_type
            ∷ text_value leave_reason
            ∷ text_value time_begin
            ∷ text_value time_end
            ∷ int_value is_school
            ∷ int_value z
            ∷ [])
          d
        ≡ ok (
          [],
          insert_leave student_id mentor_id instructor_id leave_type leave_reason time_begin
              time_end is_school z d,
        )
  pub leave-new_key : (d : D) → leave d (new_key d) ≡ none
  pub leave-insert_leave :
      (student_id mentor_id instructor_id leave_type leave_reason time_begin time_end : Bytes)
      (is_school z i : ℤ) (d : D)
      → leave
          (insert_leave student_id mentor_id instructor_id leave_type leave_reason time_begin
            time_end is_school z d)
          i
        ≡ (if eq_int (new_key d) i
            then some
                (record { status_data = z; instructor_id = instructor_id; mentor_id = mentor_id })
            else leave d i)
  pub teacher_info : Selects env (codes "teacher_info")
  pub teacher_password : Selects env (codes "teacher_password")
  pub student_password : Selects env (codes "student_password")
  pub leave_info_instructor : Selects env (codes "select_leave_info_instructor")
  pub leave_info_mentor : Selects env (codes "select_leave_info_mentor")
  pub leave_info_student : Selects env (codes "select_leave_info_student")
