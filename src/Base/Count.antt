-- ===== src/Base/Count.antt =====
-- How often a number stands in a list, the native `count`, and removal of one occurrence.
use Prim.Native.Nat.{ℕ, zero, suc, ◌+◌, ◌<◌}
use mathlib.Core.Path.{◌≡◌, refl}
use mathlib.Core.Bool.{◌&&◌}
use mathlib.Core.List.{List, [], ◌∷◌, ◌++◌}
use native.Mathlib.Omega.{arith}
use calabash.Base.Tests.{◌==◌, ltb, leb, if◌then◌else◌}
use calabash.Base.Lists.{length}

-- 1 if the numbers are equal, else 0.
abbrev pub same : ℕ → ℕ → ℕ
same a b = if a == b then 1 else 0

unfoldable pub count : ℕ → List ℕ → ℕ
count a [] = 0
count a (x ∷ xs) = same a x + count a xs

unfoldable pub remove_one : ℕ → List ℕ → List ℕ
remove_one x [] = []
remove_one x (y ∷ ys) = if x == y then ys else y ∷ remove_one x ys

pub count-append : (a : ℕ) (xs ys : List ℕ) → count a (xs ++ ys) ≡ count a xs + count a ys
unfolding count
count-append a [] ys = omega arith
count-append a (x ∷ xs) ys = omega (arith, count-append a xs ys)

pub count-remove_one :
    (a x : ℕ) (xs : List ℕ) → 0 < count x xs → count a (remove_one x xs) + same a x ≡ count a xs
unfolding count remove_one
count-remove_one a x [] h = absurd (omega arith)
count-remove_one a x (y ∷ ys) h = ground (arith, count-remove_one a x ys)

pub length-remove_one :
    (x : ℕ) (xs : List ℕ) → 0 < count x xs → suc (length (remove_one x xs)) ≡ length xs
unfolding count remove_one
length-remove_one x [] h = absurd (omega arith)
length-remove_one x (y ∷ ys) h = ground (arith, length-remove_one x ys)

pub count-nil : (a : ℕ) → count a [] ≡ 0
unfolding count
count-nil a = refl

pub count-cons : (a x : ℕ) (xs : List ℕ) → count a (x ∷ xs) ≡ same a x + count a xs
unfolding count
count-cons a x xs = refl

pub same_self : (a : ℕ) → same a a ≡ 1
same_self a = ground arith

-- The numbers from `base` on, `n` of them, the last in front.
unfoldable pub count_down : ℕ → ℕ → List ℕ
count_down base zero = []
count_down base (suc n) = (base + n) ∷ count_down base n

pub count-count_down :
    (a base n : ℕ) → count a (count_down base n) ≡ (if leb base a && ltb a (base + n) then 1 else 0)
unfolding count count_down
count-count_down a base zero = ground arith
count-count_down a base (suc n) = ground (arith, count-count_down a base n)

pub length-count_down : (base n : ℕ) → length (count_down base n) ≡ n
unfolding count_down
length-count_down base zero = refl
length-count_down base (suc n) = omega (arith, length-count_down base n)
