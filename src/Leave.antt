-- ===== src/Leave.antt =====
-- The approval of a leave in the example application: `StudentStatus` of
-- example/include/app/student_mange_server.h and `app_approval` of example/app/app_business.cpp. The
-- database is what the query returned; the request's fields are arguments.
pub mod Status
use Prim.Native.String.{String}
use calabash.Base.{
  ℕ, ◌+◌, ◌*◌, ◌/◌, ◌%◌, ◌^◌, ◌≡◌, Bool, true, false, ◌&&◌, not, List, [], ◌∷◌, Bytes, bytes_eq,
  bit_or, bit_and, ◌==◌, if◌then◌else◌, Outcome, ok, throw, fault, ◌>>=◌,
}

-- A `LeaveStatus` is its number, which the cast leaves below 4.
abbrev pub pending_approval : ℕ
pending_approval = 0

abbrev pub passed : ℕ
passed = 1

abbrev pub rejection : ℕ
rejection = 2

pub record StudentStatus : Type 0 where
  pub instructor : ℕ
  pub mentor : ℕ
  pub is_destroyed : Bool

abbrev pub bit : Bool → ℕ
bit true = 1
bit false = 0

-- The constructor from the number in the database.
unfoldable pub of_status : ℕ → StudentStatus
of_status status = record {
  instructor = status % 4;
  mentor = status / 4 % 4;
  is_destroyed = status / 16 % 2 == 1;
}

unfoldable pub status : StudentStatus → ℕ
status s = bit_or (bit s.is_destroyed * 2 ^ 4) (bit_or (s.mentor * 2 ^ 2) s.instructor)

abbrev pub is_passed : StudentStatus → Bool
is_passed s = not s.is_destroyed && (s.mentor == passed && s.instructor == passed)

-- A row of the query `select_leave_status_teachers`.
pub record Row : Type 0 where
  pub status_data : ℕ
  pub instructor_id : Bytes
  pub mentor_id : Bytes

abbrev pub not_found : String
not_found = "Not found this leave."

abbrev pub no_permissions : String
no_permissions = "No permissions, you must be leave's teacher."

abbrev pub must_be_pending : String
must_be_pending = "status must be pending approval."

abbrev pub decision : Bool → ℕ
decision true = passed
decision false = rejection

pub as_instructor : Bool → Bool → StudentStatus → Outcome StudentStatus
as_instructor mine approves s =
    if not mine
    then ok s
    else if not (s.instructor == pending_approval)
    then throw must_be_pending
    else ok (record s { instructor = decision approves })

pub as_mentor : Bool → Bool → StudentStatus → Outcome StudentStatus
as_mentor mine approves s =
    if not mine
    then ok s
    else if not (s.mentor == pending_approval)
    then throw must_be_pending
    else ok (record s { mentor = decision approves })

-- The number that the update writes.
pub app_approval : Bytes → Bool → List Row → Outcome ℕ
unfolding as_instructor as_mentor of_status status
app_approval user approves [] = throw not_found
app_approval user approves (row ∷ other ∷ rows) = throw not_found
app_approval user approves (row ∷ []) =
    let is_instructor = bytes_eq user row.instructor_id in
    let is_mentor = bytes_eq user row.mentor_id in
    if not is_instructor && not is_mentor then throw no_permissions else do
      s ← as_instructor is_instructor approves (of_status row.status_data)
      t ← as_mentor is_mentor approves s
      ok (status t)
