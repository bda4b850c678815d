-- ===== src/App/Leaves/Moves.antt =====
-- How the status of a leave may move, and what follows from it along a history.
use calabash.Base.{subst, Option, some, none, ℤ, ℕ, ◌≡◌, ◌≢◌, refl, sym, ◌∙◌, Bool, true, arith}
use calabash.App.Leaves.{LeaveRow, status_of}
use calabash.Leave.{StudentStatus, decision, pending_approval, passed, is_passed}

-- A teacher's part of a status: it stays, or a pending one is decided.
pub data Decides : ℕ → ℕ → Type 0 where
  kept : (n : ℕ) → Decides n n
  decided : (n : ℕ) (approves : Bool) → n ≡ pending_approval → Decides n (decision approves)

pub data Move : StudentStatus → StudentStatus → Type 0 where
  decides :
      (s : StudentStatus) (i m : ℕ)
      → Decides s.instructor i
      → Decides s.mentor m
      → Move s (record s { instructor = i; mentor = m })
  releases : (s : StudentStatus) → is_passed s ≡ true → Move s (record s { is_destroyed = true })
  follows : (s t u : StudentStatus) → Move s t → Move t u → Move s u

pub stays : (s : StudentStatus) → Move s s
stays s = decides s s.instructor s.mentor (kept s.instructor) (kept s.mentor)

-- A released leave was passed by both teachers.
abbrev pub Sound : StudentStatus → Type 0
Sound s = s.is_destroyed ≡ true → (s.instructor ≡ passed) × (s.mentor ≡ passed)

-- A decision, once made, stays; so does a release.
abbrev pub Firm : StudentStatus → StudentStatus → Type 0
Firm s t =
    (s.instructor ≢ pending_approval → t.instructor ≡ s.instructor)
    × (s.mentor ≢ pending_approval → t.mentor ≡ s.mentor)
    × (s.is_destroyed ≡ true → t.is_destroyed ≡ true)

Decides-Firm : {n n' : ℕ} → Decides n n' → n ≢ pending_approval → n' ≡ n
Decides-Firm (kept n) h = refl
Decides-Firm (decided n approves e) h = absurd (h e)

passed_not_pending : (n : ℕ) → n ≡ passed → n ≢ pending_approval
passed_not_pending n e f = absurd (omega arith)

pub Move-Firm : {s t : StudentStatus} → Move s t → Firm s t
Move-Firm (decides s i m hi hm) = (Decides-Firm hi, Decides-Firm hm, λ h. h)
Move-Firm (releases s done) = (λ h. refl, λ h. refl, λ h. refl)
Move-Firm (follows s t u p q) =
    let (i, m, d) = Move-Firm p in
    let (i', m', d') = Move-Firm q in
    (λ h. i' (λ e. h (sym (i h) ∙ e)) ∙ i h, λ h. m' (λ e. h (sym (m h) ∙ e)) ∙ m h, λ h. d' (d h))

pub Move-Sound : {s t : StudentStatus} → Move s t → Sound s → Sound t
Move-Sound (decides s i m hi hm) sound h =
    let (p, q) = sound h in
    (
      Decides-Firm hi (passed_not_pending s.instructor p) ∙ p,
      Decides-Firm hm (passed_not_pending s.mentor q) ∙ q,
    )
Move-Sound (releases s done) sound h = ground (arith, done)
Move-Sound (follows s t u p q) sound h = Move-Sound q (Move-Sound p sound) h

-- A leave is filed with a sound status, or keeps its teachers while its status moves.
pub data Moved : Option LeaveRow → Option LeaveRow → Type 0 where
  nowhere : Moved none none
  filed : (r : LeaveRow) → Sound (status_of r) → Moved none (some r)
  moved :
      (r : LeaveRow) (z : ℤ)
      → Move (status_of r) (status_of (record r { status_data = z }))
      → Moved (some r) (some (record r { status_data = z }))

pub Moved-refl : (o : Option LeaveRow) → Moved o o
Moved-refl none = nowhere
Moved-refl (some r) = moved r r.status_data (stays (status_of r))

pub Moved-trans : {o p q : Option LeaveRow} → Moved o p → Moved p q → Moved o q
Moved-trans nowhere k = k
Moved-trans (filed r sound) (moved r' z m) =
    filed (record r' { status_data = z }) (Move-Sound m sound)
Moved-trans (moved r z m) (moved r' z' m') = moved r z' (
    follows (status_of r) (status_of (record r { status_data = z }))
      (status_of (record r { status_data = z' })) m m')

-- The leave is still there, with its teachers and with every decision that was made.
abbrev pub Kept : LeaveRow → Option LeaveRow → Type 0
Kept r p =
    (r' : LeaveRow) × (p ≡ some r')
    × (r'.instructor_id ≡ r.instructor_id)
    × (r'.mentor_id ≡ r.mentor_id)
    × Firm (status_of r) (status_of r')

some_inj : {r s : LeaveRow} → ◌≡◌ {A = Option LeaveRow} (some r) (some s) → r ≡ s
some_inj e = cc

pub Moved-Kept : {o p : Option LeaveRow} → Moved o p → (r : LeaveRow) → o ≡ some r → Kept r p
Moved-Kept nowhere r e = absurd (cc)
Moved-Kept (filed r' sound) r e = absurd (cc)
Moved-Kept (moved r' z m) r e =
    subst (λ q. Kept q (some (record r' { status_data = z }))) (some_inj e)
      (record r' { status_data = z }, refl, refl, refl, Move-Firm m)

abbrev pub AllSound : Option LeaveRow → Type 0
AllSound none = Unit
AllSound (some r) = Sound (status_of r)

pub Moved-AllSound : {o p : Option LeaveRow} → Moved o p → AllSound o → AllSound p
Moved-AllSound nowhere h = tt
Moved-AllSound (filed r sound) h = sound
Moved-AllSound (moved r z m) h = Move-Sound m h
