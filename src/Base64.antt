-- ===== src/Base64.antt =====
-- src/util/base64.cpp. `char` is signed, as on the framework's platform: a byte above 127 is a
-- negative number, and an array index computed from it lies outside the array.
pub mod Digits
pub mod Rfc4648
pub mod RoundTrip
mod Tests
use calabash.Base.{
  ℕ, ◌+◌, ◌*◌, ◌/◌, ◌%◌, ◌^◌, bit_and, bit_or, Bool, true, false, ◌||◌, Option, none, some, List,
  [], ◌∷◌, ◌++◌, Bytes, codes, length, get_elem?, ltb, ◌==◌, if◌then◌else◌, Outcome, ok, fault,
  or_fault, ◌>>=◌,
}

abbrev pub encode_map : Bytes
encode_map = codes "ABCDEFGHIJKLMNOPQRSTUVWXYZabcdefghijklmnopqrstuvwxyz0123456789+/"

-- Rows 0 to 7 of the table. Rows 8 to 15 are 0xFF throughout, and no `char` index reaches them: a
-- byte above 127 is negative and reads before the table.
abbrev low_decode_map : Bytes
low_decode_map =
    0xFF ∷ 0xFF ∷ 0xFF ∷ 0xFF ∷ 0xFF ∷ 0xFF ∷ 0xFF ∷ 0xFF ∷ 0xFF ∷ 0xFF ∷ 0xFF ∷ 0xFF ∷ 0xFF ∷ 0xFF
    ∷ 0xFF ∷ 0xFF ∷ 0xFF ∷ 0xFF ∷ 0xFF ∷ 0xFF ∷ 0xFF ∷ 0xFF ∷ 0xFF ∷ 0xFF ∷ 0xFF ∷ 0xFF ∷ 0xFF
    ∷ 0xFF ∷ 0xFF ∷ 0xFF ∷ 0xFF ∷ 0xFF ∷ 0xFF ∷ 0xFF ∷ 0xFF ∷ 0xFF ∷ 0xFF ∷ 0xFF ∷ 0xFF ∷ 0xFF
    ∷ 0xFF ∷ 0xFF ∷ 0xFF ∷ 0x3E ∷ 0xFF ∷ 0xFF ∷ 0xFF ∷ 0x3F ∷ 0x34 ∷ 0x35 ∷ 0x36 ∷ 0x37 ∷ 0x38
    ∷ 0x39 ∷ 0x3A ∷ 0x3B ∷ 0x3C ∷ 0x3D ∷ 0xFF ∷ 0xFF ∷ 0xFF ∷ 0x00 ∷ 0xFF ∷ 0xFF ∷ 0xFF ∷ 0x00
    ∷ 0x01 ∷ 0x02 ∷ 0x03 ∷ 0x04 ∷ 0x05 ∷ 0x06 ∷ 0x07 ∷ 0x08 ∷ 0x09 ∷ 0x0A ∷ 0x0B ∷ 0x0C ∷ 0x0D
    ∷ 0x0E ∷ 0x0F ∷ 0x10 ∷ 0x11 ∷ 0x12 ∷ 0x13 ∷ 0x14 ∷ 0x15 ∷ 0x16 ∷ 0x17 ∷ 0x18 ∷ 0x19 ∷ 0xFF
    ∷ 0xFF ∷ 0xFF ∷ 0xFF ∷ 0xFF ∷ 0xFF ∷ 0x1A ∷ 0x1B ∷ 0x1C ∷ 0x1D ∷ 0x1E ∷ 0x1F ∷ 0x20 ∷ 0x21
    ∷ 0x22 ∷ 0x23 ∷ 0x24 ∷ 0x25 ∷ 0x26 ∷ 0x27 ∷ 0x28 ∷ 0x29 ∷ 0x2A ∷ 0x2B ∷ 0x2C ∷ 0x2D ∷ 0x2E
    ∷ 0x2F ∷ 0x30 ∷ 0x31 ∷ 0x32 ∷ 0x33 ∷ 0xFF ∷ 0xFF ∷ 0xFF ∷ 0xFF ∷ 0xFF ∷ []

-- `Base64EncodeMap[i]`.
pub encode_digit : ℕ → Outcome ℕ
encode_digit i = or_fault (get_elem? encode_map i)

-- `c >> k` for a `char`, whose value is negative from 128 on. A negative number stays negative
-- under `|`, so the index made from it is outside the map.
pub shift_char : ℕ → ℕ → Outcome ℕ
shift_char c k = if ltb c 128 then ok (c / 2 ^ k) else fault

-- The four places where `Encode` computes an index.
pub first_digit : ℕ → Outcome ℕ
unfolding encode_digit shift_char
first_digit a = do i ← shift_char a 2; encode_digit i

pub second_digit : ℕ → ℕ → Outcome ℕ
unfolding encode_digit shift_char
second_digit a b = do i ← shift_char b 4; encode_digit (bit_or (bit_and a 0x3 * 2 ^ 4) i)

pub third_digit : ℕ → ℕ → Outcome ℕ
unfolding encode_digit shift_char
third_digit b c = do i ← shift_char c 6; encode_digit (bit_or (bit_and b 0xf * 2 ^ 2) i)

pub fourth_digit : ℕ → Outcome ℕ
unfolding encode_digit
fourth_digit c = encode_digit (bit_and c 0x3f)

-- The rounds of the loop: the three cases are `count > 2`, `count == 2` and `count == 1`, and the
-- last two leave the loop.
pub encode_loop : Bytes → Bytes → Outcome Bytes
unfolding first_digit second_digit third_digit fourth_digit encode_digit
encode_loop output [] = ok output
encode_loop output (a ∷ []) = do
  d ← first_digit a
  e ← encode_digit (bit_and a 0x3 * 2 ^ 4)
  ok (output ++ d ∷ e ∷ b'=' ∷ b'=' ∷ [])
encode_loop output (a ∷ b ∷ []) = do
  d ← first_digit a
  e ← second_digit a b
  f ← encode_digit (bit_and b 0xf * 2 ^ 2)
  ok (output ++ d ∷ e ∷ f ∷ b'=' ∷ [])
encode_loop output (a ∷ b ∷ c ∷ input) =
    let rest = λ (q : Bytes). encode_loop (output ++ q) input in
    do
      d ← first_digit a
      e ← second_digit a b
      f ← third_digit b c
      g ← fourth_digit c
      rest (d ∷ e ∷ f ∷ g ∷ [])

unfoldable pub encode : Bytes → Outcome Bytes
unfolding encode_loop
encode input = encode_loop [] input

-- `Base64DecodeMap[c]`.
pub decode_digit : ℕ → Outcome ℕ
decode_digit c = or_fault (get_elem? low_decode_map c)

-- The rounds of the loop over a string of whole groups; `return {}` gives the empty string.
pub decode_loop : Bytes → Bytes → Outcome Bytes
unfolding decode_digit
decode_loop output (c0 ∷ c1 ∷ c2 ∷ c3 ∷ input) =
    let rest = λ (q : Bytes). decode_loop (output ++ q) input in
    do
      ch0 ← decode_digit c0
      ch1 ← decode_digit c1
      ch2 ← decode_digit c2
      ch3 ← decode_digit c3
      let x = bit_or (ch0 * 2 ^ 2) (ch1 / 2 ^ 4) % 256
      let y = bit_or (ch1 * 2 ^ 4) (ch2 / 2 ^ 2) % 256
      let z = bit_or (ch2 * 2 ^ 6) ch3 % 256
      if ch0 == 0xFF || ch1 == 0xFF
          then ok []
          else if c2 == b'='
          then ok (output ++ x ∷ [])
          else if ch2 == 0xFF
          then ok []
          else if c3 == b'='
          then ok (output ++ x ∷ y ∷ [])
          else if ch3 == 0xFF
          then ok []
          else rest (x ∷ y ∷ z ∷ [])
decode_loop output _ = ok output

unfoldable pub decode : Bytes → Outcome Bytes
unfolding decode_loop
decode input = if length input % 4 == 0 then decode_loop [] input else ok []
