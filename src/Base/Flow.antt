-- ===== src/Base/Flow.antt =====
-- What a C++ call comes to.
use Prim.Native.String.{String}
use mathlib.Core.Path.{◌≡◌, refl}
use calabash.Base.Tests.{if◌then◌else◌}
use mathlib.Core.Logic.{◌⊎◌, inl, inr}
use mathlib.Core.Option.{Option, none, some}
use mathlib.Core.Bool.{Bool, true, false}

-- `fault` stands for undefined behaviour: an index outside its array, a read past a buffer, a
-- division by zero, a mutex that its own thread locks twice.
pub data Outcome {ℓ} (A : Type ℓ) : Type ℓ where
  ok : A → Outcome A
  throw : String → Outcome A
  fault : Outcome A

infixl 5 ◌>>=◌
-- What follows a call runs only if the call returns.
abbrev pub ◌>>=◌ {ℓ κ} :
    {Before : Type ℓ} {After : Type κ} → Outcome Before → (Before → Outcome After) → Outcome After
fault >>= after = fault
throw message >>= after = throw message
ok result >>= after = after result

infixl 5 ◌>>◌
abbrev pub ◌>>◌ {ℓ κ} :
    {Before : Type ℓ} {After : Type κ} → Outcome Before → Outcome After → Outcome After
first >> second = first >>= λ _. second

-- `a[i]` where the index may lie outside.
abbrev pub or_fault {ℓ} : {A : Type ℓ} → Option A → Outcome A
or_fault none = fault
or_fault (some a) = ok a

-- The call returns: it neither throws nor runs into undefined behaviour.
pub data IsOk {ℓ} {A : Type ℓ} : Outcome A → Type ℓ where
  returns : (a : A) → IsOk (ok a)

pub IsOk-value {ℓ} : {A : Type ℓ} {m : Outcome A} → IsOk m → (a : A) × (m ≡ ok a)
IsOk-value (returns a) = (a, refl)

pub IsOk-if {ℓ} :
    {A : Type ℓ} (b : Bool) {x y : Outcome A} → IsOk x → IsOk y → IsOk (if b then x else y)
IsOk-if true hx hy = hx
IsOk-if false hx hy = hy

-- To split on a computed outcome and keep the equation.
pub Outcome-cases {ℓ} :
    {A : Type ℓ} (m : Outcome A)
    → ((a : A) × (m ≡ ok a)) ⊎ ((e : String) × (m ≡ throw e)) ⊎ (m ≡ fault)
Outcome-cases (ok a) = inl (a, refl)
Outcome-cases (throw e) = inr (inl (e, refl))
Outcome-cases fault = inr (inr refl)

pub not-IsOk-throw {ℓ} : (A : Type ℓ) (e : String) → ¬ IsOk {A = A} (throw e)
not-IsOk-throw A e h = elim h [ ]

pub not-IsOk-fault {ℓ} : (A : Type ℓ) → ¬ IsOk {A = A} fault
not-IsOk-fault A h = elim h [ ]
