-- ===== src/Base64/Rfc4648.antt =====
-- `Base64::Encode` against the encoding of RFC 4648: each group of three bytes is a 24-bit number,
-- written in four digits of base 64.
use calabash.Base.{
  ℕ, ◌+◌, ◌*◌, ◌/◌, ◌%◌, ◌<◌, ◌≡◌, Bool, true, ◌&&◌, [], ◌∷◌, ◌++◌, append-nil, append_assoc, Bytes,
  All, ltb, if◌then◌else◌, arith, ok, fault,
}
use calabash.Base64.{encode, encode_loop}
use calabash.Base64.Digits.{
  digit, first_digit_lem, second_digit_lem, third_digit_lem, fourth_digit_lem, two_bits_digit,
  four_bits_digit,
}

abbrev pub group : ℕ → ℕ → ℕ → ℕ
group a b c = a * 65536 + b * 256 + c

-- The encoding of any byte string; missing bytes count as zero, and `=` stands for a digit that
-- holds none of the input.
unfoldable pub reference : Bytes → Bytes
reference [] = []
reference (a ∷ []) =
    digit (group a 0 0 / 262144) ∷ digit (group a 0 0 / 4096 % 64) ∷ b'=' ∷ b'=' ∷ []
reference (a ∷ b ∷ []) =
    digit (group a b 0 / 262144)
    ∷ digit (group a b 0 / 4096 % 64)
    ∷ digit (group a b 0 / 64 % 64)
    ∷ b'='
    ∷ []
reference (a ∷ b ∷ c ∷ xs) =
    digit (group a b c / 262144)
    ∷ digit (group a b c / 4096 % 64)
    ∷ digit (group a b c / 64 % 64)
    ∷ digit (group a b c % 64)
    ∷ reference xs

abbrev pub IsByte : ℕ → Type 0
IsByte b = b < 256

unfoldable pub all_ascii : Bytes → Bool
all_ascii [] = true
all_ascii (x ∷ xs) = ltb x 128 && all_ascii xs

group_digits :
    (a b c : ℕ)
    → a < 256
    → b < 256
    → c < 256
    → (group a b c / 262144 ≡ a / 4)
      × (group a b c / 4096 % 64 ≡ a % 4 * 16 + b / 16)
      × (group a b c / 64 % 64 ≡ b % 16 * 4 + c / 64)
      × (group a b c % 64 ≡ c % 64)
group_digits a b c ha hb hc = (omega arith, omega arith, omega arith, omega arith)

encode_loop_lem :
    (out xs : Bytes)
    → All IsByte xs
    → encode_loop out xs ≡ (if all_ascii xs then ok (out ++ reference xs) else fault)
unfolding encode_loop reference all_ascii
encode_loop_lem out [] h = rw append-nil
encode_loop_lem out (a ∷ []) (ha, _) =
    ground (arith, first_digit_lem a, two_bits_digit a, group_digits a 0 0)
encode_loop_lem out (a ∷ b ∷ []) (ha, (hb, _)) =
    ground (arith, first_digit_lem a, second_digit_lem a b, four_bits_digit b, group_digits a b 0)
encode_loop_lem out (a ∷ b ∷ c ∷ xs) (ha, (hb, (hc, h))) =
    let q =
      digit (a / 4)
      ∷ digit (a % 4 * 16 + b / 16)
      ∷ digit (b % 16 * 4 + c / 64)
      ∷ digit (c % 64)
      ∷ [] in
    ground (
      arith,
      first_digit_lem a,
      second_digit_lem a b,
      third_digit_lem b c,
      fourth_digit_lem c,
      group_digits a b c,
      encode_loop_lem (out ++ q) xs h,
      append_assoc out q (reference xs),
    )

-- On bytes, `encode` gives the encoding of the RFC if every byte is below 128, and otherwise reads
-- outside its table.
pub encode-eq-reference :
    (xs : Bytes) → All IsByte xs → encode xs ≡ (if all_ascii xs then ok (reference xs) else fault)
unfolding encode
encode-eq-reference xs h = encode_loop_lem [] xs h
