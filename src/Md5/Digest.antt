-- ===== src/Md5/Digest.antt =====
-- The digest text, and the bytes that `MD5` misreads.
use calabash.Base.{
  ◌||◌, if◌then◌else◌, ℕ, ◌+◌, ◌-◌, ◌*◌, ◌/◌, ◌%◌, ◌^◌, ◌≤◌, ◌<◌, ◌≡◌, ◌≢◌, refl, ap, true, List,
  [], ◌∷◌, ◌++◌, Bytes, All, All-append, length, length-append, get_or, leb, not, ◌==◌, ◌&&◌, arith,
  table_holds, table_holds-at, Bool,
}
use calabash.Md5.{str16, padding, format, encode, blocks}
use calabash.Md5.Padding.{rfc_words}

-- 0 to 9 and A to F.
abbrev pub is_hex_digit : ℕ → Bool
is_hex_digit c = (leb b'0' c && leb c b'9') || (leb b'A' c && leb c b'F')

-- The value of such a digit.
abbrev pub hex_value : ℕ → ℕ
hex_value c = if leb b'A' c then c - 55 else c - 48

-- The number that a text of digits stands for, the low byte first and its high digit first.
unfoldable pub read_hex : Bytes → ℕ
read_hex (h ∷ l ∷ xs) = hex_value h * 16 + hex_value l + 256 * read_hex xs
read_hex _ = 0

str16-IsHexDigit :
    (i : ℕ) → i < 16 → (is_hex_digit (get_or str16 i 0) ≡ true) × (hex_value (get_or str16 i 0) ≡ i)
str16-IsHexDigit i h =
    let t =
      table_holds-at 16
        (λ i. is_hex_digit (get_or str16 i 0) && (hex_value (get_or str16 i 0) == i)) i table h in
    ground (arith, t)
  where
    table :
        table_holds 16 (λ i. is_hex_digit (get_or str16 i 0) && (hex_value (get_or str16 i 0) == i))
        ≡ true
    table = unfold table_holds in refl

high_digit : (b : ℕ) → is_hex_digit (get_or str16 (b / 16 % 16) 0) ≡ true
high_digit b = (str16-IsHexDigit (b / 16 % 16) (omega arith)).0

low_digit : (b : ℕ) → is_hex_digit (get_or str16 (b % 16) 0) ≡ true
low_digit b = (str16-IsHexDigit (b % 16) (omega arith)).0

-- The two digits of a byte read back.
hex_byte :
    (b : ℕ)
    → b < 256
    → hex_value (get_or str16 (b / 16 % 16) 0) * 16 + hex_value (get_or str16 (b % 16) 0) ≡ b
hex_byte b h = omega (
  arith,
  (str16-IsHexDigit (b / 16 % 16) (omega arith)).1,
  (str16-IsHexDigit (b % 16) (omega arith)).1,
)

abbrev pub AllHex : Bytes → Type 0
AllHex = All (λ c. is_hex_digit c ≡ true)

AllHex-append : (xs ys : Bytes) → AllHex xs → AllHex ys → AllHex (xs ++ ys)
AllHex-append xs ys h k = All-append (λ c. is_hex_digit c ≡ true) xs ys h k

-- `beyond` is empty where the memory behind `tmp` starts with a zero.
module _ (beyond : ℕ → ℕ → Bytes) (clean : (w i : ℕ) → beyond w i ≡ []) where
  length-format : (w : ℕ) → length (format beyond w) ≡ 8
  unfolding format
  length-format w = rw (clean w 0, clean w 1, clean w 2, clean w 3)

  format-AllHex : (w : ℕ) → AllHex (format beyond w)
  unfolding format
  format-AllHex w =
      let b0 = w / 2 ^ 0 % 256 in
      let b1 = w / 2 ^ 8 % 256 in
      let b2 = w / 2 ^ 16 % 256 in
      let b3 = w / 2 ^ 24 % 256 in
      rw (clean w 0, clean w 1, clean w 2, clean w 3)
        (
          high_digit b0,
          (
            low_digit b0,
            (
              high_digit b1,
              (low_digit b1, (high_digit b2, (low_digit b2, (high_digit b3, (low_digit b3, tt))))),
            ),
          ),
        )

  -- The text of a word determines the word.
  pub read_hex-format : (w : ℕ) → w < 2 ^ 32 → read_hex (format beyond w) ≡ w
  unfolding format read_hex
  read_hex-format w h =
      rw (clean w 0, clean w 1, clean w 2, clean w 3)
        (omega (
          arith,
          hex_byte (w / 2 ^ 0 % 256) (omega arith),
          hex_byte (w / 2 ^ 8 % 256) (omega arith),
          hex_byte (w / 2 ^ 16 % 256) (omega arith),
          hex_byte (w / 2 ^ 24 % 256) (omega arith),
        ))

  -- Where nothing stands behind the two unterminated characters that `res += tmp` reads, the digest of
  -- any input is a text of 32 hexadecimal digits.
  pub encode-digits : (src : Bytes) → (length (encode beyond src) ≡ 32) × AllHex (encode beyond src)
  unfolding encode
  encode-digits src =
      let rec = padding src in
      let st =
        blocks (length rec / 16) rec
          (record { a = 0x67452301; b = 0xefcdab89; c = 0x98badcfe; d = 0x10325476 }) in
      (
        rw (
          length-append (format beyond st.a)
              (format beyond st.b ++ (format beyond st.c ++ format beyond st.d)),
          length-append (format beyond st.b) (format beyond st.c ++ format beyond st.d),
          length-append (format beyond st.c) (format beyond st.d),
          length-format st.a,
          length-format st.b,
          length-format st.c,
          length-format st.d,
        ),
        AllHex-append (format beyond st.a) _ (format-AllHex st.a) (
            AllHex-append (format beyond st.b) _ (format-AllHex st.b) (
              AllHex-append (format beyond st.c) (format beyond st.d) (format-AllHex st.c)
                (format-AllHex st.d))),
      )

-- The first word for a text of one byte above 127: the sign fills the upper three bytes.
padding_table :
    table_holds 128
      (λ i. not (get_or (padding ((128 + i) ∷ [])) 0 0 == get_or (rfc_words ((128 + i) ∷ [])) 0 0))
    ≡ true
unfolding padding rfc_words table_holds
padding_table = refl

-- Every text of one byte above 127 is padded to other words than RFC 1321 has it.
pub padding-ne-rfc_words : (c : ℕ) → 128 ≤ c → c < 256 → padding (c ∷ []) ≢ rfc_words (c ∷ [])
padding-ne-rfc_words c lo hi e =
    let differ =
      table_holds-at 128
        (λ i.
          not (get_or (padding ((128 + i) ∷ [])) 0 0 == get_or (rfc_words ((128 + i) ∷ [])) 0 0))
        (c - 128) padding_table (omega arith) in
    let back : 128 + (c - 128) ≡ c = omega arith in
    ground (arith, rw back at differ, ap (λ (ws : List ℕ). get_or ws 0 0) e)
