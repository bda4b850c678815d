-- ===== src/App/Leaves/Junior.antt =====
-- The status that `app_leave` files.
use calabash.Base.{
  fits_int, ℕ, ◌+◌, ◌^◌, ◌<◌, ◌≡◌, ◌==◌, ◌||◌, ◌&&◌, refl, ltb, leb, ℤ, eq_int, sub_ℕ, Bool, true,
  false, not, some, List, [], ◌∷◌, Bytes, codes, if◌then◌else◌, ok, Bool-cases, inl, inr, arith,
}
use calabash.App.{Env, returned, got}
use calabash.App.Act.{
  get_text_at, get_bool_at, index_found, test_json_param, lost_params, lost_one, only_row,
}
use calabash.App.Notes.{app_leave, is_graduate, set_junior, new_status}
use calabash.App.Leaves.{LeaveTable}
use calabash.Leave.{bit, status}
use calabash.Sqlite3.{Sqlite3Data}

status-filed : (g : Bool) → status (set_junior (not g) new_status) ≡ (if g then 0 else 4)
unfolding status set_junior
status-filed true = refl
status-filed false = refl

fits_int-sub_ℕ : (a b : ℕ) → a < 2 ^ 31 → b < 2 ^ 31 → fits_int (sub_ℕ a b) ≡ true
fits_int-sub_ℕ a b ha hb = elim (Bool-cases (leb b a)) [
  | inl e ↦ rw e (ground (arith, e, ha))
  | inr e ↦ rw e (ground (arith, e, hb))
]

sub_ℕ-zero : (a b : ℕ) → eq_int (sub_ℕ a b) (ℤ.pos 0) ≡ (a == b)
sub_ℕ-zero a b = elim (Bool-cases (leb b a)) [
  | inl e ↦ rw e (ground (arith, e))
  | inr e ↦ rw e (ground (arith, e))
]

sub_ℕ-one : (a b : ℕ) → eq_int (sub_ℕ a b) (ℤ.pos 1) ≡ (a == b + 1)
sub_ℕ-one a b = elim (Bool-cases (leb b a)) [
  | inl e ↦ rw e (ground (arith, e))
  | inr e ↦ rw e (ground (arith, e))
]

module _ {J F D : Type 0} (env : Env J F D) (table : LeaveTable env) where
  -- The source compares the end of the class's four years with the years since 1900.
  abbrev pub graduates : ℕ → Bool
  graduates class_data =
      (env.tm_year == class_data + 4) || ((env.tm_year == class_data + 5) && ltb 8 env.tm_mon)

  is_graduate-eq :
      (class_data : ℕ) (d : D)
      → class_data + 4 < 2 ^ 31
      → env.tm_year < 2 ^ 31
      → is_graduate env (ℤ.pos class_data) d ≡ ok (returned (graduates class_data), d)
  unfolding is_graduate
  is_graduate-eq class_data d small year =
      let fits : ltb (class_data + 4) (2 ^ 31) ≡ true = ground (arith, small) in
      let next : class_data + 4 + 1 ≡ class_data + 5 = omega arith in
      rw
        (
          fits,
          fits_int-sub_ℕ env.tm_year (class_data + 4) year small,
          sub_ℕ-zero env.tm_year (class_data + 4),
          sub_ℕ-one env.tm_year (class_data + 4),
          next,
        )
        refl

  -- The columns of a student that `app_leave` reads.
  abbrev pub student_row : (cell : ℕ → Sqlite3Data F) → List (Sqlite3Data F)
  student_row cell =
      cell 0 ∷ cell 1 ∷ cell 2 ∷ cell 3 ∷ cell 4 ∷ cell 5 ∷ cell 6 ∷ cell 7 ∷ cell 8 ∷ []

  -- The texts of a request for leave, and whether it is a school matter.
  pub record Complete (body : J) : Type 0 where
    pub user : Bytes
    pub leave_type : Bytes
    pub leave_reason : Bytes
    pub time_begin : Bytes
    pub time_end : Bytes
    pub is_school : Bool
    pub user_j : J
    pub type_j : J
    pub reason_j : J
    pub begin_j : J
    pub end_j : J
    pub school_j : J
    pub user_at : env.json.find (codes "user") body ≡ some user_j
    pub type_at : env.json.find (codes "leave_type") body ≡ some type_j
    pub reason_at : env.json.find (codes "leave_reason") body ≡ some reason_j
    pub begin_at : env.json.find (codes "time_begin") body ≡ some begin_j
    pub end_at : env.json.find (codes "time_end") body ≡ some end_j
    pub school_at : env.json.find (codes "is_school") body ≡ some school_j
    pub user_text : env.json.get_text user_j ≡ got user
    pub type_text : env.json.get_text type_j ≡ got leave_type
    pub reason_text : env.json.get_text reason_j ≡ got leave_reason
    pub begin_text : env.json.get_text begin_j ≡ got time_begin
    pub end_text : env.json.get_text end_j ≡ got time_end
    pub school_bool : env.json.get_bool school_j ≡ got is_school

  -- A complete request of a student who has one row of nine columns, with a class and a year in
  -- the range of an int, files one leave with the student's teachers. Its status is 0, where both
  -- teachers are pending, if the class and 4 is the years since 1900, or one less than these from
  -- October on; otherwise it is 4, where the mentor has passed it already.
  pub app_leave-files :
      (body : J) (c : Complete body) (cell : ℕ → Sqlite3Data F) (class_data : ℕ) (d : D)
      → table.student d c.user ≡ student_row cell ∷ []
      → (cell 3).int_data ≡ ℤ.pos class_data
      → class_data + 4 < 2 ^ 31
      → env.tm_year < 2 ^ 31
      → app_leave env body d
        ≡ ok (
          returned tt,
          table.insert_leave c.user
              (cell 8).text_data
              (cell 7).text_data
              c.leave_type
              c.leave_reason
              c.time_begin
              c.time_end
              (ℤ.pos (bit c.is_school))
              (ℤ.pos (if graduates class_data then 0 else 4))
              d,
        )
  unfolding app_leave get_text_at get_bool_at index_found test_json_param lost_params lost_one
      only_row
  app_leave-files body c cell class_data d stored is_class small year =
      let g = graduates class_data in
      rw
        (
          c.user_at,
          c.user_text,
          c.type_at,
          c.reason_at,
          c.begin_at,
          c.end_at,
          c.school_at,
          table.select_student c.user d,
          stored,
          c.type_text,
          c.reason_text,
          c.begin_text,
          c.end_text,
          c.school_bool,
          is_class,
          is_graduate-eq class_data d small year,
        )
        (rw
          (
            status-filed g,
            table.insert c.user (cell 8).text_data (cell 7).text_data c.leave_type c.leave_reason
                c.time_begin c.time_end (ℤ.pos (bit c.is_school)) (ℤ.pos (if g then 0 else 4)) d,
          )
          refl)
