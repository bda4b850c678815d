-- ===== src/Token/Cipher.antt =====
-- The exclusive or with a running key.
use calabash.Base.{
  ltb, Bool-cases, inl, inr, ℕ, ◌+◌, ◌%◌, ◌<◌, ◌≡◌, refl, [], ◌∷◌, Bytes, All, length, get_or,
  arith, bit_xor, bit_xor-lt, bit_xor-twice, ok, zero, suc,
}
use calabash.Base64.Rfc4648.{all_ascii}
use calabash.Token.{xor_key}

-- The text under the key, without the failure on an empty key.
unfoldable pub under_key : Bytes → ℕ → Bytes → Bytes
under_key key i [] = []
under_key key i (th ∷ text) =
    bit_xor th (get_or key i 0) ∷ under_key key ((i + 1) % length key) text

pub xor_key_lem :
    (k : ℕ) (key : Bytes) (i : ℕ) (text : Bytes)
    → xor_key (k ∷ key) i text ≡ ok (under_key (k ∷ key) i text)
unfolding xor_key under_key
xor_key_lem k key i [] = refl
xor_key_lem k key i (th ∷ text) = rw (xor_key_lem k key ((i + 1) % length (k ∷ key)) text)

get_or-lt : (b : ℕ) (key : Bytes) (i : ℕ) → 0 < b → All (λ c. c < b) key → get_or key i 0 < b
get_or-lt b [] i pos h = pos
get_or-lt b (x ∷ key) zero pos h = h.0
get_or-lt b (x ∷ key) (suc i) pos h = get_or-lt b key i pos h.1

-- An ASCII key keeps ASCII text ASCII, and applied again from the same place it gives the text back.
module _ (key : Bytes) (plain : All (λ c. c < 128) key) where
  pub under_key-ascii :
      (i : ℕ) (text : Bytes) → All (λ c. c < 128) text → All (λ c. c < 128) (under_key key i text)
  unfolding under_key
  under_key-ascii i [] h = tt
  under_key-ascii i (th ∷ text) (ht, h) = (
    bit_xor-lt 7 th (get_or key i 0) ht (get_or-lt 128 key i (omega arith) plain),
    under_key-ascii ((i + 1) % length key) text h,
  )

  pub under_key-twice :
      (i : ℕ) (text : Bytes)
      → All (λ c. c < 256) text
      → under_key key i (under_key key i text) ≡ text
  unfolding under_key
  under_key-twice i [] h = refl
  under_key-twice i (th ∷ text) (ht, h) =
      let small = get_or-lt 128 key i (omega arith) plain in
      rw (
        bit_xor-twice 8 th (get_or key i 0) ht (omega arith),
        under_key-twice ((i + 1) % length key) text h,
      )

  -- A byte above 127 stays above 127.
  ltb-bit_xor : (th k : ℕ) → th < 256 → k < 128 → ltb (bit_xor th k) 128 ≡ ltb th 128
  ltb-bit_xor th k ht hk =
      let back = bit_xor-twice 8 th k ht (omega arith) in
      elim (Bool-cases (ltb th 128)) [
        | inl low ↦ rw low (ground (arith, bit_xor-lt 7 th k))
        | inr high ↦ rw high (elim (Bool-cases (ltb (bit_xor th k) 128)) [
          | inl low ↦ absurd (ground (arith, bit_xor-lt 7 (bit_xor th k) k, back))
          | inr e ↦ e
        ])
      ]

  pub all_ascii-under_key :
      (i : ℕ) (text : Bytes)
      → All (λ c. c < 256) text
      → all_ascii (under_key key i text) ≡ all_ascii text
  unfolding all_ascii under_key
  all_ascii-under_key i [] h = refl
  all_ascii-under_key i (th ∷ text) (ht, h) = rw (
    ltb-bit_xor th (get_or key i 0) ht (get_or-lt 128 key i (omega arith) plain),
    all_ascii-under_key ((i + 1) % length key) text h,
  )

  pub under_key-bytes :
      (i : ℕ) (text : Bytes) → All (λ c. c < 256) text → All (λ c. c < 256) (under_key key i text)
  unfolding under_key
  under_key-bytes i [] h = tt
  under_key-bytes i (th ∷ text) (ht, h) =
      let small = get_or-lt 128 key i (omega arith) plain in
      (
        bit_xor-lt 8 th (get_or key i 0) ht (omega arith),
        under_key-bytes ((i + 1) % length key) text h,
      )
