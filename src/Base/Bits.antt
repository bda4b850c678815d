-- ===== src/Base/Bits.antt =====
-- Bit operations: tables over small ranges, and laws for every width from the recursion on digits.
use Prim.Native.Nat.{
  digits, max, differ, bit_or-bitwise, bit_xor-bitwise, ◌/◌, ◌^◌, ℕ, zero, suc, ◌+◌, ◌*◌, ◌%◌, ◌≤◌,
  ◌<◌, bit_or, bit_xor,
}
use mathlib.Core.Path.{◌≡◌, refl, ap}
use native.Mathlib.Nat.{pow-suc}
use mathlib.Core.Bool.{Bool, true, ◌&&◌}
use native.Mathlib.Omega.{arith}

-- Whether a test holds of every number below a limit, from the highest down.
unfoldable pub table_holds : ℕ → (ℕ → Bool) → Bool
table_holds zero test = true
table_holds (suc limit) test = test limit && table_holds limit test

pub table_holds-at :
    (limit : ℕ) (test : ℕ → Bool) (row : ℕ)
    → table_holds limit test ≡ true
    → row < limit
    → test row ≡ true
unfolding table_holds
table_holds-at zero test row table below = absurd (omega arith)
table_holds-at (suc limit) test row table below = ground (arith, table_holds-at limit test row)

-- The same over two arguments.
pub table_holds-at_pair :
    (m n : ℕ) (p : ℕ → ℕ → Bool) (x y : ℕ)
    → table_holds m (λ a. table_holds n (p a)) ≡ true
    → x < m
    → y < n
    → p x y ≡ true
table_holds-at_pair m n p x y h hx hy =
    table_holds-at n (p x) y (table_holds-at m (λ a. table_holds n (p a)) x h hx) hy

-- Fuel above the first number changes nothing.
module _ (last : ℕ → ℕ) (join : ℕ → ℕ → ℕ) where
  digits-fuel :
      (fuel more x y : ℕ)
      → x ≤ fuel
      → x ≤ more
      → digits last join fuel x y ≡ digits last join more x y
  digits-fuel zero zero x y low high = refl
  digits-fuel zero (suc more) zero y low high = refl
  digits-fuel zero (suc more) (suc x) y low high = absurd (omega arith)
  digits-fuel (suc fuel) zero zero y low high = refl
  digits-fuel (suc fuel) zero (suc x) y low high = absurd (omega arith)
  digits-fuel (suc fuel) (suc more) zero y low high = refl
  digits-fuel (suc fuel) (suc more) (suc x) y low high =
      let shorter = digits-fuel fuel more (suc x / 2) (y / 2) (omega arith) (omega arith) in
      omega (arith, shorter)

-- The lowest digit of `|` and `^`, and the others.
pub bit_or-digit : (a b : ℕ) → bit_or a b ≡ max (a % 2) (b % 2) + 2 * bit_or (a / 2) (b / 2)
bit_or-digit zero b = omega (arith, bit_or-bitwise 0 (b / 2), bit_or-bitwise 0 b)
bit_or-digit (suc a) b =
    let half = suc a / 2 in
    let shorter = digits-fuel (λ y. y) max a half half (b / 2) (omega arith) (omega arith) in
    omega (arith, shorter, bit_or-bitwise half (b / 2), bit_or-bitwise (suc a) b)

pub bit_or-zero : (n a : ℕ) → a ≤ n → bit_or a 0 ≡ a
bit_or-zero n zero h = refl
bit_or-zero zero (suc a) h = absurd (omega arith)
bit_or-zero (suc n) (suc a) h =
    omega (arith, bit_or-digit (suc a) 0, bit_or-zero n (suc a / 2) (omega arith))

double_shift : (q k : ℕ) → q * 2 ^ suc k ≡ 2 * (q * 2 ^ k)
double_shift q k = omega (arith, ap (λ (t : ℕ). q * t) (pow-suc 2 k))

-- `q << k | r` is a sum where `r` has at most `k` bits.
pub bit_or-shifted : (k q r : ℕ) → r < 2 ^ k → bit_or (q * 2 ^ k) r ≡ q * 2 ^ k + r
bit_or-shifted zero q r h = ground (arith, bit_or-zero q q)
bit_or-shifted (suc k) q r h = ground (
  arith,
  bit_or-digit (q * 2 ^ suc k) r,
  double_shift q k,
  pow-suc 2 k,
  bit_or-shifted k q (r / 2) (omega (arith, pow-suc 2 k)),
)

bit_or-comm_fuel : (n a b : ℕ) → a ≤ n → b ≤ n → bit_or a b ≡ bit_or b a
bit_or-comm_fuel zero a b p q = ground arith
bit_or-comm_fuel (suc n) a b p q = omega (
  arith,
  bit_or-digit a b,
  bit_or-digit b a,
  bit_or-comm_fuel n (a / 2) (b / 2) (omega arith) (omega arith),
)

pub bit_or_comm : (a b : ℕ) → bit_or a b ≡ bit_or b a
bit_or_comm a b = bit_or-comm_fuel (a + b) a b (omega arith) (omega arith)

pub bit_or-lt : (k a b : ℕ) → a < 2 ^ k → b < 2 ^ k → bit_or a b < 2 ^ k
bit_or-lt zero a b p q = ground arith
bit_or-lt (suc k) a b p q = omega (
  arith,
  bit_or-digit a b,
  pow-suc 2 k,
  bit_or-lt k (a / 2) (b / 2) (omega (arith, pow-suc 2 k)) (omega (arith, pow-suc 2 k)),
)

differ-zero : (y : ℕ) → differ 0 y ≡ y
differ-zero y = refl

bit_xor-digit : (a b : ℕ) → bit_xor a b ≡ differ (a % 2) (b % 2) + 2 * bit_xor (a / 2) (b / 2)
bit_xor-digit zero b =
    omega (arith, bit_xor-bitwise 0 b, bit_xor-bitwise 0 (b / 2), differ-zero (b % 2))
bit_xor-digit (suc a) b =
    let half = suc a / 2 in
    let shorter = digits-fuel (λ y. y) differ a half half (b / 2) (omega arith) (omega arith) in
    omega (arith, shorter, bit_xor-bitwise half (b / 2), bit_xor-bitwise (suc a) b)

-- Exclusive or of binary digits.
differ_table : (x y : ℕ) → x < 2 → y < 2 → (differ x y < 2) × (differ (differ x y) y ≡ x)
differ_table zero zero p q = (omega arith, refl)
differ_table zero (suc zero) p q = (omega arith, refl)
differ_table (suc zero) zero p q = (omega arith, refl)
differ_table (suc zero) (suc zero) p q = (omega arith, refl)
differ_table zero (suc (suc y)) p q = absurd (omega arith)
differ_table (suc zero) (suc (suc y)) p q = absurd (omega arith)
differ_table (suc (suc x)) y p q = absurd (omega arith)

pub bit_xor-lt : (k a b : ℕ) → a < 2 ^ k → b < 2 ^ k → bit_xor a b < 2 ^ k
bit_xor-lt zero a b p q = ground arith
bit_xor-lt (suc k) a b p q = omega (
  arith,
  bit_xor-digit a b,
  differ_table (a % 2) (b % 2) (omega arith) (omega arith),
  pow-suc 2 k,
  bit_xor-lt k (a / 2) (b / 2) (omega (arith, pow-suc 2 k)) (omega (arith, pow-suc 2 k)),
)

-- A key applied twice gives the text back.
pub bit_xor-twice : (k a b : ℕ) → a < 2 ^ k → b < 2 ^ k → bit_xor (bit_xor a b) b ≡ a
bit_xor-twice zero a b p q = ground arith
bit_xor-twice (suc k) a b p q =
    let t = differ_table (a % 2) (b % 2) (omega arith) (omega arith) in
    let high : bit_xor a b / 2 ≡ bit_xor (a / 2) (b / 2) = omega (arith, bit_xor-digit a b, t) in
    let low : bit_xor a b % 2 ≡ differ (a % 2) (b % 2) = omega (arith, bit_xor-digit a b, t) in
    ground (
      arith,
      bit_xor-digit (bit_xor a b) b,
      high,
      low,
      t,
      pow-suc 2 k,
      bit_xor-twice k (a / 2) (b / 2),
    )
