-- ===== src/App/Tests/Table.antt =====
-- A table of leaves as a list, and the environment over it.
use calabash.Base.{
  ℕ, zero, suc, ◌≡◌, ◌==◌, refl, ℤ, eq_int, Option, some, none, List, [], ◌∷◌, ◌++◌, Bytes,
  bytes_eq, codes, get_elem?, length, if◌then◌else◌, Outcome, ok, arith,
}
use calabash.App.{Env}
use calabash.App.Leaves.{LeaveRow, LeaveTable, status_rows, teacher_rows, with_status}
use calabash.App.Tests.Library.{Json, json_lib}
use calabash.Sqlite3.{Value, int_value, text_value, Sqlite3Data, Rows, text}
use calabash.Token.Tests.{strokes}

abbrev pub Store : Type 0
Store = List LeaveRow

abbrev pub leave_at : Store → ℤ → Option LeaveRow
leave_at d (ℤ.pos n) = get_elem? d n
leave_at d (ℤ.negsuc n) = none

abbrev pub set_at : ℕ → ℤ → Store → Store
set_at n z [] = []
set_at zero z (r ∷ d) = record r { status_data = z } ∷ d
set_at (suc n) z (r ∷ d) = r ∷ set_at n z d

abbrev pub set_status_at : ℤ → ℤ → Store → Store
set_status_at (ℤ.pos n) z d = set_at n z d
set_status_at (ℤ.negsuc n) z d = d

pub set_at-elem :
    (n : ℕ) (z : ℤ) (i : ℕ) (d : Store)
    → get_elem? (set_at n z d) i ≡ (if n == i then with_status z (get_elem? d i) else get_elem? d i)
set_at-elem n z i [] = ground arith
set_at-elem zero z zero (r ∷ d) = refl
set_at-elem zero z (suc i) (r ∷ d) = ground arith
set_at-elem (suc n) z zero (r ∷ d) = ground arith
set_at-elem (suc n) z (suc i) (r ∷ d) = ground (arith, set_at-elem n z i d)

pub set_status_at-leave :
    (id z i : ℤ) (d : Store)
    → leave_at (set_status_at id z d) i
      ≡ (if eq_int id i then with_status z (leave_at d i) else leave_at d i)
set_status_at-leave (ℤ.pos n) z (ℤ.pos i) d = set_at-elem n z i d
set_status_at-leave (ℤ.pos n) z (ℤ.negsuc i) d = refl
set_status_at-leave (ℤ.negsuc n) z (ℤ.pos i) d = refl
set_status_at-leave (ℤ.negsuc n) z (ℤ.negsuc i) d = ground arith

abbrev pub new_row : Bytes → Bytes → ℤ → LeaveRow
new_row mentor instructor z = record {
  status_data = z;
  instructor_id = instructor;
  mentor_id = mentor;
}

pub get_elem?-length : (d : Store) → get_elem? d (length d) ≡ none
get_elem?-length [] = refl
get_elem?-length (r ∷ d) = get_elem?-length d

pub get_elem?-append :
    (d : Store) (r : LeaveRow) (i : ℕ)
    → get_elem? (d ++ r ∷ []) i ≡ (if length d == i then some r else get_elem? d i)
get_elem?-append [] r zero = refl
get_elem?-append [] r (suc i) = ground arith
get_elem?-append (q ∷ d) r zero = ground arith
get_elem?-append (q ∷ d) r (suc i) = ground (arith, get_elem?-append d r i)

pub append-leave :
    (d : Store) (r : LeaveRow) (i : ℤ)
    → leave_at (d ++ r ∷ []) i ≡ (if eq_int (ℤ.pos (length d)) i then some r else leave_at d i)
append-leave d r (ℤ.pos n) = get_elem?-append d r n
append-leave d r (ℤ.negsuc n) = refl

-- Column i of a student holds the text of the one byte i; the class is 2019.
abbrev pub cell : ℕ → Sqlite3Data ℤ
cell i = record { text_data = i ∷ []; double_data = ℤ.pos 0; int_data = ℤ.pos 2019; type = text }

abbrev pub student_rows : Rows ℤ
student_rows =
    (cell 0 ∷ cell 1 ∷ cell 2 ∷ cell 3 ∷ cell 4 ∷ cell 5 ∷ cell 6 ∷ cell 7 ∷ cell 8 ∷ []) ∷ []

abbrev pub leave_rows : Rows ℤ
leave_rows =
    (cell 0 ∷ cell 1 ∷ cell 2 ∷ cell 3 ∷ cell 4 ∷ cell 5 ∷ cell 6 ∷ cell 7 ∷ cell 8 ∷ cell 9 ∷ [])
    ∷ []

abbrev pub run_text : Bytes → List (Value ℤ) → Store → Outcome (Rows ℤ × Store)
run_text name (int_value id ∷ []) d =
    if bytes_eq name (codes "select_leave_status")
    then ok (status_rows (ℤ.pos 0) (leave_at d id), d)
    else ok (teacher_rows (ℤ.pos 0) (leave_at d id), d)
run_text name (int_value id ∷ int_value z ∷ []) d = ok ([], set_status_at id z d)
run_text name (text_value id ∷ []) d =
    if bytes_eq name (codes "student_info")
    then ok (student_rows, d)
    else if bytes_eq name (codes "teacher_password")
    then ok ((cell 7 ∷ []) ∷ [], d)
    else ok (leave_rows, d)
run_text name (a ∷ text_value mentor ∷ text_value instructor ∷ b ∷ c ∷ e ∷ f ∷ g ∷ int_value z ∷ [])
      d =
    ok ([], d ++ new_row mentor instructor z ∷ [])
run_text name other_args d = ok ([], d)

abbrev pub env : Env Json ℤ Store
env = record {
  json = json_lib;
  call = run_text;
  calendar = strokes;
  beyond = λ w i. [];
  now = 5;
  later = 6;
  tm_year = 123;
  tm_mon = 9;
}

abbrev pub table : LeaveTable env
table = record {
  zero = ℤ.pos 0;
  leave = leave_at;
  select_status = λ id d. refl;
  select_teachers = λ id d. refl;
  set_leave_status = set_status_at;
  update = λ id z d. refl;
  leave-set_leave_status = set_status_at-leave;
  student = λ d id. student_rows;
  select_student = λ id d. refl;
  new_key = λ d. ℤ.pos (length d);
  insert_leave = λ a mentor instructor b c e f g z d. d ++ new_row mentor instructor z ∷ [];
  insert = λ a mentor instructor b c e f g z d. refl;
  leave-new_key = get_elem?-length;
  leave-insert_leave =
      λ a mentor instructor b c e f g z i d. append-leave d (new_row mentor instructor z) i;
  teacher_info = λ id d. (leave_rows, refl);
  teacher_password = λ id d. ((cell 7 ∷ []) ∷ [], refl);
  student_password = λ id d. (leave_rows, refl);
  leave_info_instructor = λ id d. (leave_rows, refl);
  leave_info_mentor = λ id d. (leave_rows, refl);
  leave_info_student = λ id d. (leave_rows, refl);
}
