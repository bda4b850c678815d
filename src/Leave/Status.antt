-- ===== src/Leave/Status.antt =====
-- The status of a leave through its number, and what an approval changes.
use calabash.Base.{
  ℕ, ◌+◌, ◌*◌, ◌/◌, ◌%◌, ◌≡◌, ◌<◌, refl, Bool, true, false, not, ◌&&◌, ◌||◌, [], ◌∷◌, Bytes,
  bytes_eq, bit_or-shifted, arith, ◌==◌, if◌then◌else◌, ok,
}
use calabash.Leave.{
  StudentStatus, Row, of_status, status, decision, pending_approval, as_instructor, as_mentor,
  app_approval, bit,
}

-- The number is a sum of fields that do not overlap.
status-eq :
    (i m : ℕ) (d : Bool)
    → i < 4
    → m < 4
    → status (record { instructor = i; mentor = m; is_destroyed = d }) ≡ bit d * 16 + (m * 4 + i)
unfolding status
status-eq i m d hi hm =
    let low = bit_or-shifted 2 m i (omega arith) in
    rw low (bit_or-shifted 4 (bit d) (m * 4 + i) (omega arith))

bit-lt : (d : Bool) → bit d < 2
bit-lt true = omega arith
bit-lt false = omega arith

bit-inverse : (d : Bool) (n : ℕ) → n ≡ bit d → (n == 1) ≡ d
bit-inverse true n e = ground arith
bit-inverse false n e = ground arith

same_fields :
    (s t : StudentStatus)
    → s.instructor ≡ t.instructor
    → s.mentor ≡ t.mentor
    → s.is_destroyed ≡ t.is_destroyed
    → s ≡ t
same_fields s t e f g = λ k. record { instructor = e k; mentor = f k; is_destroyed = g k }

-- A status whose fields are below 4 comes back from its number.
pub of_status-status :
    (s : StudentStatus) → s.instructor < 4 → s.mentor < 4 → of_status (status s) ≡ s
unfolding of_status
of_status-status s hi hm =
    let e = status-eq s.instructor s.mentor s.is_destroyed hi hm in
    let top : bit s.is_destroyed < 2 = bit-lt s.is_destroyed in
    same_fields (of_status (status s)) s (omega (arith, e)) (omega (arith, e))
      (bit-inverse s.is_destroyed (status s / 16 % 2) (omega (arith, e)))

as_instructor-ok :
    (mine approves : Bool) (s : StudentStatus)
    → (mine ≡ true → s.instructor ≡ pending_approval)
    → as_instructor mine approves s
      ≡ ok (record s { instructor = if mine then decision approves else s.instructor })
unfolding as_instructor
as_instructor-ok true approves s pending = rw (pending refl) refl
as_instructor-ok false approves s pending = refl

as_mentor-ok :
    (mine approves : Bool) (s : StudentStatus)
    → (mine ≡ true → s.mentor ≡ pending_approval)
    → as_mentor mine approves s
      ≡ ok (record s { mentor = if mine then decision approves else s.mentor })
unfolding as_mentor
as_mentor-ok true approves s pending = rw (pending refl) refl
as_mentor-ok false approves s pending = refl

pub decided-lt :
    (mine approves : Bool) (n : ℕ) → n < 4 → (if mine then decision approves else n) < 4
decided-lt true true n h = omega arith
decided-lt true false n h = omega arith
decided-lt false approves n h = h

pub fields-lt : (n : ℕ) → ((of_status n).instructor < 4) × ((of_status n).mentor < 4)
unfolding of_status
fields-lt n = (omega arith, omega arith)

-- A teacher of the leave who has not decided yet decides: the number that is written reads as the
-- old status with the decision in each place that is the teacher's, and nothing else changed.
pub app_approval-decides :
    (user : Bytes) (approves : Bool) (row : Row)
    → (bytes_eq user row.instructor_id || bytes_eq user row.mentor_id) ≡ true
    → (bytes_eq user row.instructor_id ≡ true
        → (of_status row.status_data).instructor ≡ pending_approval)
    → (bytes_eq user row.mentor_id ≡ true → (of_status row.status_data).mentor ≡ pending_approval)
    → (let s = of_status row.status_data in
        (n : ℕ) × (app_approval user approves (row ∷ []) ≡ ok n)
        × (of_status n ≡ record s {
          instructor = if bytes_eq user row.instructor_id then decision approves else s.instructor;
          mentor = if bytes_eq user row.mentor_id then decision approves else s.mentor;
        }))
unfolding app_approval
app_approval-decides user approves row teacher pending_i pending_m =
    let s = of_status row.status_data in
    let is_i = bytes_eq user row.instructor_id in
    let is_m = bytes_eq user row.mentor_id in
    let t = record s { instructor = if is_i then decision approves else s.instructor } in
    let u = record t { mentor = if is_m then decision approves else s.mentor } in
    let allowed : (not is_i && not is_m) ≡ false = ground (arith, teacher) in
    let low = fields-lt row.status_data in
    (
      status u,
      rw
          (
            allowed,
            as_instructor-ok is_i approves s pending_i,
            as_mentor-ok is_m approves t pending_m,
          )
          refl,
      of_status-status u (decided-lt is_i approves s.instructor low.0)
          (decided-lt is_m approves s.mentor low.1),
    )
