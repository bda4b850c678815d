-- ===== src/Base64/Digits.antt =====
-- The index computations of `Base64::Encode` and `Base64::Decode` as plain arithmetic, and the two
-- tables against each other.
use calabash.Base.{
  ℕ, ◌+◌, ◌*◌, ◌/◌, ◌%◌, ◌^◌, ◌<◌, ◌≡◌, refl, bit_and, bit_or, Bool, true, false, not, get_or, ltb,
  ◌==◌, ==_iff, arith, table_holds, table_holds-at, table_holds-at_pair, fault, Outcome, ok,
  if◌then◌else◌, throw,
}
use calabash.Base64.{
  encode_map, encode_digit, decode_digit, first_digit, second_digit, third_digit, fourth_digit,
}

-- The character for a value below 64.
unfoldable pub digit : ℕ → ℕ
digit i = get_or encode_map i 0

and_three : (a : ℕ) → a < 256 → bit_and a 0x3 ≡ a % 4
and_three a h = (==_iff _ _).0 (table_holds-at 256 (λ a. bit_and a 0x3 == a % 4) a table h)
  where
    table : table_holds 256 (λ a. bit_and a 0x3 == a % 4) ≡ true
    table = unfold table_holds in refl

and_fifteen : (a : ℕ) → a < 256 → bit_and a 0xf ≡ a % 16
and_fifteen a h = (==_iff _ _).0 (table_holds-at 256 (λ a. bit_and a 0xf == a % 16) a table h)
  where
    table : table_holds 256 (λ a. bit_and a 0xf == a % 16) ≡ true
    table = unfold table_holds in refl

and_low_six : (a : ℕ) → a < 256 → bit_and a 0x3f ≡ a % 64
and_low_six a h = (==_iff _ _).0 (table_holds-at 256 (λ a. bit_and a 0x3f == a % 64) a table h)
  where
    table : table_holds 256 (λ a. bit_and a 0x3f == a % 64) ≡ true
    table = unfold table_holds in refl

-- `x << k | y` is a sum where `y` has at most `k` bits.
pub or_two : (x y : ℕ) → x < 64 → y < 4 → bit_or (x * 2 ^ 2) y ≡ x * 4 + y
or_two x y hx hy =
    (==_iff _ _).0
      (table_holds-at_pair 64 4 (λ x y. bit_or (x * 2 ^ 2) y == x * 4 + y) x y table hx hy)
  where
    table : table_holds 64 (λ x. table_holds 4 (λ y. bit_or (x * 2 ^ 2) y == x * 4 + y)) ≡ true
    table = unfold table_holds in refl

pub or_four : (x y : ℕ) → x < 64 → y < 16 → bit_or (x * 2 ^ 4) y ≡ x * 16 + y
or_four x y hx hy =
    (==_iff _ _).0
      (table_holds-at_pair 64 16 (λ x y. bit_or (x * 2 ^ 4) y == x * 16 + y) x y table hx hy)
  where
    table : table_holds 64 (λ x. table_holds 16 (λ y. bit_or (x * 2 ^ 4) y == x * 16 + y)) ≡ true
    table = unfold table_holds in refl

pub or_six : (x y : ℕ) → x < 64 → y < 64 → bit_or (x * 2 ^ 6) y ≡ x * 64 + y
or_six x y hx hy =
    (==_iff _ _).0
      (table_holds-at_pair 64 64 (λ x y. bit_or (x * 2 ^ 6) y == x * 64 + y) x y table hx hy)
  where
    table : table_holds 64 (λ x. table_holds 64 (λ y. bit_or (x * 2 ^ 6) y == x * 64 + y)) ≡ true
    table = unfold table_holds in refl

-- A value's table entry, as a Boolean test of an outcome.
is_ok : Outcome ℕ → ℕ → Bool
is_ok (ok a) b = a == b
is_ok (throw e) b = false
is_ok fault b = false

is_ok_sound : (o : Outcome ℕ) (b : ℕ) → is_ok o b ≡ true → o ≡ ok b
unfolding is_ok
is_ok_sound (ok a) b h = ground arith
is_ok_sound (throw e) b h = cc
is_ok_sound fault b h = cc

pub encode_digit_lem : (i : ℕ) → i < 64 → encode_digit i ≡ ok (digit i)
encode_digit_lem i h =
    is_ok_sound _ _ (table_holds-at 64 (λ i. is_ok (encode_digit i) (digit i)) i table h)
  where
    table : table_holds 64 (λ i. is_ok (encode_digit i) (digit i)) ≡ true
    table = unfold table_holds is_ok encode_digit digit in refl

-- The decoding table inverts the encoding table.
pub decode-digit : (i : ℕ) → i < 64 → decode_digit (digit i) ≡ ok i
decode-digit i h =
    is_ok_sound _ _ (table_holds-at 64 (λ i. is_ok (decode_digit (digit i)) i) i table h)
  where
    table : table_holds 64 (λ i. is_ok (decode_digit (digit i)) i) ≡ true
    table = unfold table_holds is_ok decode_digit digit in refl

-- No digit is the padding character.
pub digit-ne-pad : (i : ℕ) → i < 64 → (digit i == b'=') ≡ false
digit-ne-pad i h = ground (arith, table_holds-at 64 (λ i. not (digit i == b'=')) i table h)
  where
    table : table_holds 64 (λ i. not (digit i == b'=')) ≡ true
    table = unfold table_holds digit in refl

pub first_digit_lem : (a : ℕ) → first_digit a ≡ (if ltb a 128 then ok (digit (a / 4)) else fault)
unfolding first_digit
first_digit_lem a = ground (arith, encode_digit_lem (a / 4))

pub second_digit_lem :
    (a b : ℕ)
    → a < 256
    → second_digit a b ≡ (if ltb b 128 then ok (digit (a % 4 * 16 + b / 16)) else fault)
unfolding second_digit
second_digit_lem a b h =
    rw (and_three a h)
      (ground (arith, or_four (a % 4) (b / 16), encode_digit_lem (a % 4 * 16 + b / 16)))

pub third_digit_lem :
    (b c : ℕ)
    → b < 256
    → third_digit b c ≡ (if ltb c 128 then ok (digit (b % 16 * 4 + c / 64)) else fault)
unfolding third_digit
third_digit_lem b c h =
    rw (and_fifteen b h)
      (ground (arith, or_two (b % 16) (c / 64), encode_digit_lem (b % 16 * 4 + c / 64)))

pub fourth_digit_lem : (c : ℕ) → c < 256 → fourth_digit c ≡ ok (digit (c % 64))
unfolding fourth_digit
fourth_digit_lem c h = rw (and_low_six c h) (encode_digit_lem (c % 64) (omega arith))

-- The last digit before the padding.
pub two_bits_digit :
    (a : ℕ) → a < 256 → encode_digit (bit_and a 0x3 * 2 ^ 4) ≡ ok (digit (a % 4 * 16))
two_bits_digit a h = rw (and_three a h) (encode_digit_lem (a % 4 * 16) (omega arith))

pub four_bits_digit :
    (b : ℕ) → b < 256 → encode_digit (bit_and b 0xf * 2 ^ 2) ≡ ok (digit (b % 16 * 4))
four_bits_digit b h = rw (and_fifteen b h) (encode_digit_lem (b % 16 * 4) (omega arith))
