-- ===== src/Url/RoundTrip.antt =====
-- `UrlDecode` after `UrlEncode`, and what a decoder makes of other input.
use calabash.Base.{
  ℕ, ◌+◌, ◌*◌, ◌/◌, ◌%◌, ◌<◌, ◌≡◌, ◌≢◌, refl, ◌⊎◌, inl, inr, true, false, not, [], ◌∷◌, Bytes, All,
  get_or, ◌==◌, ==_iff, arith, ok, ◌>>=◌, table_holds, table_holds-at, Bool-cases,
}
use calabash.Url.{num_map, find_index, url_code_get_hex, must_escape, url_encode, url_decode}

hex-digits :
    (c : ℕ)
    → c < 256
    → url_code_get_hex (get_or num_map (c / 16 % 16) 0) (get_or num_map (c % 16) 0) ≡ c
hex-digits c h = (==_iff _ _).0 (
    table_holds-at 256
      (λ c. url_code_get_hex (get_or num_map (c / 16 % 16) 0) (get_or num_map (c % 16) 0) == c) c
      table h)
  where
    table :
        table_holds 256
          (λ c. url_code_get_hex (get_or num_map (c / 16 % 16) 0) (get_or num_map (c % 16) 0) == c)
        ≡ true
    table = unfold table_holds url_code_get_hex in refl

percent-must_escape : must_escape b'%' ≡ true
unfolding must_escape
percent-must_escape = refl

-- An unescaped character in front of any text.
pub url_decode-plain :
    (c : ℕ) (xs : Bytes)
    → (c == b'%') ≡ false
    → url_decode (c ∷ xs) ≡ (do rest ← url_decode xs; ok (c ∷ rest))
unfolding url_decode
url_decode-plain c [] h = rw h
url_decode-plain c (l ∷ []) h = rw h
url_decode-plain c (l ∷ r ∷ xs) h = rw h

url_decode-escaped :
    (l r : ℕ) (xs : Bytes)
    → url_decode (b'%' ∷ l ∷ r ∷ xs) ≡ (do rest ← url_decode xs; ok (url_code_get_hex l r ∷ rest))
unfolding url_decode
url_decode-escaped l r xs = refl

plain-ne-percent : (c : ℕ) → must_escape c ≡ false → (c == b'%') ≡ false
unfolding must_escape
plain-ne-percent c h = ground arith

-- Every byte string comes back from its encoding.
pub url_decode-url_encode :
    (xs : Bytes) → All (λ c. c < 256) xs → url_decode (url_encode xs) ≡ ok xs
unfolding url_encode
url_decode-url_encode [] h = unfold url_decode in refl
url_decode-url_encode (c ∷ xs) (hc, h) = elim (Bool-cases (must_escape c)) [
  | inl escape ↦ rw (
    escape,
    url_decode-escaped (get_or num_map (c / 16 % 16) 0) (get_or num_map (c % 16) 0) (url_encode xs),
    url_decode-url_encode xs h,
    hex-digits c hc,
  )
  | inr plain ↦ rw (
    plain,
    url_decode-plain c (url_encode xs) (plain-ne-percent c plain),
    url_decode-url_encode xs h,
  )
]

-- What may stand in an encoded text: `%` and the characters that need no escape.
abbrev pub IsUrlChar : ℕ → Type 0
IsUrlChar c = (c ≡ b'%') ⊎ (must_escape c ≡ false)

num_map-IsUrlChar : (i : ℕ) → i < 16 → must_escape (get_or num_map i 0) ≡ false
num_map-IsUrlChar i h =
    ground (arith, table_holds-at 16 (λ i. not (must_escape (get_or num_map i 0))) i table h)
  where
    table : table_holds 16 (λ i. not (must_escape (get_or num_map i 0))) ≡ true
    table = unfold table_holds must_escape in refl

-- The encoded text holds no character that `must_escape` names, but for the `%` of an escape.
pub url_encode-IsUrlChar : (xs : Bytes) → All IsUrlChar (url_encode xs)
unfolding url_encode
url_encode-IsUrlChar [] = tt
url_encode-IsUrlChar (c ∷ xs) = elim (Bool-cases (must_escape c)) [
  | inl escape ↦ rw escape (
    inl refl,
    (
      inr (num_map-IsUrlChar (c / 16 % 16) (omega arith)),
      (inr (num_map-IsUrlChar (c % 16) (omega arith)), url_encode-IsUrlChar xs),
    ),
  )
  | inr plain ↦ rw plain (inr plain, url_encode-IsUrlChar xs)
]

-- A hexadecimal digit written with a small letter, a to f for 10 to 15.
abbrev pub small_letter : ℕ → ℕ
small_letter i = b'a' + i

small_letter-index : (i : ℕ) → i < 6 → find_index num_map (small_letter i) ≡ 16
small_letter-index i h =
    (==_iff _ _).0 (table_holds-at 6 (λ i. find_index num_map (small_letter i) == 16) i table h)
  where
    table : table_holds 6 (λ i. find_index num_map (small_letter i) == 16) ≡ true
    table = unfold table_holds find_index in refl

-- The index of a small letter is 16, that of a character which is no digit, so the text of an
-- escape with a small second digit decodes to another byte than the one that it stands for.
pub small_letter-differs :
    (i l : ℕ)
    → i < 6
    → find_index num_map l < 16
    → url_code_get_hex l (small_letter i) ≢ find_index num_map l * 16 + (10 + i)
unfolding url_code_get_hex
small_letter-differs i l hi hl e = omega (arith, small_letter-index i hi)
