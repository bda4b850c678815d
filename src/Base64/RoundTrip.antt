-- ===== src/Base64/RoundTrip.antt =====
-- Decoding what `Base64::Encode` or any encoder of RFC 4648 wrote.
use calabash.Base.{
  returns, IsOk-if, ◌≤◌, IsOk, suc, zero, get_elem?-get_or, get_or, ap, ℕ, ◌*◌, ◌/◌, ◌%◌, ◌<◌, ◌≡◌,
  refl, [], ◌∷◌, ◌++◌, append-nil, append_assoc, Bytes, length, All, arith, ok, bit_or, ◌^◌,
}
use calabash.Base64.{low_decode_map, decode_digit, encode, decode, decode_loop}
use calabash.Base64.Digits.{digit, decode-digit, digit-ne-pad, or_two, or_four, or_six}
use calabash.Base64.Rfc4648.{group, reference, IsByte, encode-eq-reference}

-- The three output bytes of a group, from its digits.
output_bytes :
    (a b c : ℕ)
    → a < 256
    → b < 256
    → c < 256
    → (bit_or (group a b c / 262144 * 2 ^ 2) (group a b c / 4096 % 64 / 2 ^ 4) % 256 ≡ a)
      × (bit_or (group a b c / 4096 % 64 * 2 ^ 4) (group a b c / 64 % 64 / 2 ^ 2) % 256 ≡ b)
      × (bit_or (group a b c / 64 % 64 * 2 ^ 6) (group a b c % 64) % 256 ≡ c)
output_bytes a b c ha hb hc = (
  rw (or_two (group a b c / 262144) (group a b c / 4096 % 64 / 2 ^ 4) (omega arith) (omega arith))
      (omega arith),
  rw (or_four (group a b c / 4096 % 64) (group a b c / 64 % 64 / 2 ^ 2) (omega arith) (omega arith))
      (omega arith),
  rw (or_six (group a b c / 64 % 64) (group a b c % 64) (omega arith) (omega arith)) (omega arith),
)

-- One round, on digits of values below 64 and on the two padded forms.
module _ (out xs : Bytes) (p q : ℕ) (hp : p < 64) (hq : q < 64) where
  round_one :
      decode_loop out (digit p ∷ digit q ∷ b'=' ∷ b'=' ∷ xs)
      ≡ ok (out ++ bit_or (p * 2 ^ 2) (q / 2 ^ 4) % 256 ∷ [])
  unfolding decode_loop
  round_one = rw (decode-digit p hp, decode-digit q hq) (ground arith)

  round_two :
      (r : ℕ)
      → r < 64
      → decode_loop out (digit p ∷ digit q ∷ digit r ∷ b'=' ∷ xs)
        ≡ ok (
            out ++ bit_or (p * 2 ^ 2) (q / 2 ^ 4) % 256 ∷ bit_or (q * 2 ^ 4) (r / 2 ^ 2) % 256 ∷ [])
  unfolding decode_loop
  round_two r hr =
      rw (decode-digit p hp, decode-digit q hq, decode-digit r hr, digit-ne-pad r hr) (ground arith)

  round_three :
      (r s : ℕ)
      → r < 64
      → s < 64
      → decode_loop out (digit p ∷ digit q ∷ digit r ∷ digit s ∷ xs)
        ≡ decode_loop
            (out
              ++ bit_or (p * 2 ^ 2) (q / 2 ^ 4) % 256
                ∷ bit_or (q * 2 ^ 4) (r / 2 ^ 2) % 256
                ∷ bit_or (r * 2 ^ 6) s % 256
                ∷ [])
            xs
  unfolding decode_loop
  round_three r s hr hs =
      rw
        (
          decode-digit p hp,
          decode-digit q hq,
          decode-digit r hr,
          decode-digit s hs,
          digit-ne-pad r hr,
          digit-ne-pad s hs,
        )
        (ground arith)

decode_loop_lem : (out xs : Bytes) → All IsByte xs → decode_loop out (reference xs) ≡ ok (out ++ xs)
unfolding reference
decode_loop_lem out [] h = unfold decode_loop in rw append-nil
decode_loop_lem out (a ∷ []) (ha, _) =
    let n = group a 0 0 in
    rw (
      round_one out [] (n / 262144) (n / 4096 % 64) (omega arith) (omega arith),
      (output_bytes a 0 0 ha (omega arith) (omega arith)).0,
    )
decode_loop_lem out (a ∷ b ∷ []) (ha, (hb, _)) =
    let n = group a b 0 in
    let o = output_bytes a b 0 ha hb (omega arith) in
    rw (
      round_two out [] (n / 262144) (n / 4096 % 64) (omega arith) (omega arith) (n / 64 % 64)
          (omega arith),
      o.0,
      o.1,
    )
decode_loop_lem out (a ∷ b ∷ c ∷ xs) (ha, (hb, (hc, h))) =
    let n = group a b c in
    let o = output_bytes a b c ha hb hc in
    rw
      (
        round_three out (reference xs) (n / 262144) (n / 4096 % 64) (omega arith) (omega arith)
            (n / 64 % 64) (n % 64) (omega arith) (omega arith),
        o.0,
        o.1,
        o.2,
        decode_loop_lem (out ++ a ∷ b ∷ c ∷ []) xs h,
      )
      (ap ok (append_assoc out (a ∷ b ∷ c ∷ []) xs))

length-reference : (xs : Bytes) → length (reference xs) % 4 ≡ 0
unfolding reference
length-reference [] = refl
length-reference (a ∷ []) = omega arith
length-reference (a ∷ b ∷ []) = omega arith
length-reference (a ∷ b ∷ c ∷ xs) = omega (arith, length-reference xs)

-- `decode` inverts the encoding of RFC 4648 on every byte string, bytes above 127 included.
pub decode-reference : (xs : Bytes) → All IsByte xs → decode (reference xs) ≡ ok xs
unfolding decode
decode-reference xs h = ground (arith, length-reference xs, decode_loop_lem [] xs h)

-- Whatever `encode` returns for a byte string, `decode` takes back to that string.
pub decode-encode : (xs e : Bytes) → All IsByte xs → encode xs ≡ ok e → decode e ≡ ok xs
decode-encode xs e h q = ground (arith, encode-eq-reference xs h, decode-reference xs h)

decode_digit_total : (c : ℕ) → c < 128 → decode_digit c ≡ ok (get_or low_decode_map c 0)
unfolding decode_digit
decode_digit_total c h = rw (get_elem?-get_or low_decode_map c 0 h)

decode_loop-IsOk :
    (n : ℕ) (out xs : Bytes) → length xs ≤ n → All (λ c. c < 128) xs → IsOk (decode_loop out xs)
unfolding decode_loop
decode_loop-IsOk n out [] l h = returns out
decode_loop-IsOk n out (a ∷ []) l h = returns out
decode_loop-IsOk n out (a ∷ b ∷ []) l h = returns out
decode_loop-IsOk n out (a ∷ b ∷ c ∷ []) l h = returns out
decode_loop-IsOk zero out (a ∷ b ∷ c ∷ d ∷ xs) l h = absurd (omega arith)
decode_loop-IsOk (suc n) out (a ∷ b ∷ c ∷ d ∷ xs) l (ha, (hb, (hc, (hd, h)))) =
    let rest = λ (o : Bytes). decode_loop-IsOk n o xs (omega arith) h in
    rw
      (
        decode_digit_total a ha,
        decode_digit_total b hb,
        decode_digit_total c hc,
        decode_digit_total d hd,
      )
      (search (IsOk-if, returns, rest) depth 8)

-- On ASCII input `decode` returns: it does not throw, and no index leaves a table.
pub decode-IsOk : (xs : Bytes) → All (λ c. c < 128) xs → IsOk (decode xs)
unfolding decode
decode-IsOk xs h = IsOk-if _ (decode_loop-IsOk (length xs) [] xs (omega arith) h) (returns [])
