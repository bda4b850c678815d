-- ===== src/Md5/Store.antt =====
-- The loop of `MD5::Padding` that stores the bytes of a message in its words.
use calabash.Base.{
  ℕ, zero, suc, ◌+◌, ◌*◌, ◌/◌, ◌%◌, ◌^◌, ◌<◌, ◌≡◌, refl, ◌∙◌, ap, List, [], ◌∷◌, ◌++◌, append_assoc,
  Bytes, All, length, length-append, replicate, arith, bit_or, bit_or_comm, bit_or-shifted,
}
use calabash.Md5.{u32, sign_extend, or_at, fill}

-- Four bytes to a word, the lowest first; the last word is filled up with zeros.
unfoldable pub words : Bytes → List ℕ
words [] = []
words (a ∷ []) = a ∷ []
words (a ∷ b ∷ []) = (a + b * 256) ∷ []
words (a ∷ b ∷ c ∷ []) = (a + b * 256 + c * 65536) ∷ []
words (a ∷ b ∷ c ∷ d ∷ xs) = (a + b * 256 + c * 65536 + d * 16777216) ∷ words xs

-- The loop of `Padding` without the sign of `char`.
unfoldable pub store : List ℕ → ℕ → Bytes → List ℕ
store rec i [] = rec
store rec i (c ∷ xs) = store (or_at rec (i / 4) (u32 (c * 2 ^ (i % 4 * 8)))) (i + 1) xs

pub fill-eq-store :
    (rec : List ℕ) (i : ℕ) (src : Bytes) → All (λ c. c < 128) src → fill rec i src ≡ store rec i src
unfolding fill store sign_extend
fill-eq-store rec i [] h = refl
fill-eq-store rec i (c ∷ src) (hc, h) =
    ground (arith, fill-eq-store (or_at rec (i / 4) (u32 (c * 2 ^ (i % 4 * 8)))) (i + 1) src h)

pub store-append :
    (rec : List ℕ) (i : ℕ) (xs ys : Bytes)
    → store rec i (xs ++ ys) ≡ store (store rec i xs) (i + length xs) ys
unfolding store
store-append rec i [] ys = ap (λ (j : ℕ). store rec j ys) (omega arith)
store-append rec i (x ∷ xs) ys =
    store-append (or_at rec (i / 4) (u32 (x * 2 ^ (i % 4 * 8)))) (i + 1) xs ys
    ∙ ap (λ (j : ℕ). store (store (or_at rec (i / 4) (u32 (x * 2 ^ (i % 4 * 8)))) (i + 1) xs) j ys)
        (omega arith)

or_at-append :
    (pre : List ℕ) (w x : ℕ) (rest : List ℕ)
    → or_at (pre ++ w ∷ rest) (length pre) x ≡ pre ++ bit_or w x ∷ rest
unfolding or_at
or_at-append [] w x rest = refl
or_at-append (p ∷ pre) w x rest = ap (◌∷◌ p) (or_at-append pre w x rest)

or_fits : (k w c : ℕ) → w < 2 ^ k → c * 2 ^ k < 2 ^ 32 → bit_or w (u32 (c * 2 ^ k)) ≡ w + c * 2 ^ k
or_fits k w c hw fits =
    let same : u32 (c * 2 ^ k) ≡ c * 2 ^ k = omega arith in
    rw same (omega (arith, bit_or_comm w (c * 2 ^ k), bit_or-shifted k c w hw))

-- The byte of place `j` joins a word that holds the places below.
or_value :
    (j w c : ℕ)
    → j < 4
    → w < 2 ^ (j * 8)
    → c < 256
    → bit_or w (u32 (c * 2 ^ (j * 8))) ≡ w + c * 2 ^ (j * 8)
or_value zero w c hj hw hc = or_fits 0 w c hw (omega arith)
or_value (suc zero) w c hj hw hc = or_fits 8 w c hw (omega arith)
or_value (suc (suc zero)) w c hj hw hc = or_fits 16 w c hw (omega arith)
or_value (suc (suc (suc zero))) w c hj hw hc = or_fits 24 w c hw (omega arith)
or_value (suc (suc (suc (suc j)))) w c hj hw hc = absurd (omega arith)

or_byte :
    (pre : List ℕ) (w c v : ℕ) (rest : List ℕ) (i j : ℕ)
    → i ≡ 4 * length pre + j
    → j < 4
    → w < 2 ^ (j * 8)
    → c < 256
    → v ≡ w + c * 2 ^ (j * 8)
    → or_at (pre ++ w ∷ rest) (i / 4) (u32 (c * 2 ^ (i % 4 * 8))) ≡ pre ++ v ∷ rest
or_byte pre w c v rest i j e hj hw hc hv =
    let place : i / 4 ≡ length pre = omega arith in
    let rank : i % 4 ≡ j = omega arith in
    rw (place, rank, or_at-append pre w (u32 (c * 2 ^ (j * 8))) rest, or_value j w c hj hw hc, hv)

-- The loop on one, two or three bytes of a word, and on more.
module _ (pre : List ℕ) (rest : List ℕ) (i : ℕ) (e : i ≡ 4 * length pre) where
  store_one :
      (a : ℕ) (xs : Bytes)
      → a < 256
      → store (pre ++ 0 ∷ rest) i (a ∷ xs) ≡ store (pre ++ a ∷ rest) (i + 1) xs
  unfolding store
  store_one a xs ha =
      rw (or_byte pre 0 a a rest i 0 (omega arith) (omega arith) (omega arith) ha (omega arith))

  store_two :
      (a b : ℕ) (xs : Bytes)
      → a < 256
      → b < 256
      → store (pre ++ 0 ∷ rest) i (a ∷ b ∷ xs) ≡ store (pre ++ (a + b * 256) ∷ rest) (i + 1 + 1) xs
  unfolding store
  store_two a b xs ha hb =
      store_one a (b ∷ xs) ha
      ∙ ap (λ (r : List ℕ). store r (i + 1 + 1) xs)
          (or_byte pre a b (a + b * 256) rest (i + 1) 1 (omega arith) (omega arith) ha hb
            (omega arith))

  store_three :
      (a b c : ℕ) (xs : Bytes)
      → a < 256
      → b < 256
      → c < 256
      → store (pre ++ 0 ∷ rest) i (a ∷ b ∷ c ∷ xs)
        ≡ store (pre ++ (a + b * 256 + c * 65536) ∷ rest) (i + 1 + 1 + 1) xs
  unfolding store
  store_three a b c xs ha hb hc =
      store_two a b (c ∷ xs) ha hb
      ∙ ap (λ (r : List ℕ). store r (i + 1 + 1 + 1) xs)
          (or_byte pre (a + b * 256) c (a + b * 256 + c * 65536) rest (i + 1 + 1) 2 (omega arith)
            (omega arith) (omega arith) hc (omega arith))

  store_four :
      (a b c d : ℕ) (xs : Bytes)
      → a < 256
      → b < 256
      → c < 256
      → d < 256
      → store (pre ++ 0 ∷ rest) i (a ∷ b ∷ c ∷ d ∷ xs)
        ≡ store (pre ++ (a + b * 256 + c * 65536 + d * 16777216) ∷ rest) (i + 1 + 1 + 1 + 1) xs
  unfolding store
  store_four a b c d xs ha hb hc hd =
      store_three a b c (d ∷ xs) ha hb hc
      ∙ ap (λ (r : List ℕ). store r (i + 1 + 1 + 1 + 1) xs)
          (or_byte pre (a + b * 256 + c * 65536) d (a + b * 256 + c * 65536 + d * 16777216) rest
            (i + 1 + 1 + 1) 3 (omega arith) (omega arith) (omega arith) hd (omega arith))

-- The loop writes the words of its bytes over the zeros that it finds.
pub store-words :
    (pre : List ℕ) (i : ℕ) (bs : Bytes) (rest : List ℕ)
    → All (λ c. c < 256) bs
    → i ≡ 4 * length pre
    → store (pre ++ (replicate (length (words bs)) 0 ++ rest)) i bs ≡ pre ++ (words bs ++ rest)
unfolding words
store-words pre i [] rest h e = unfold store in refl
store-words pre i (a ∷ []) rest (ha, _) e = unfold store in store_one pre rest i e a [] ha
store-words pre i (a ∷ b ∷ []) rest (ha, (hb, _)) e =
    unfold store in store_two pre rest i e a b [] ha hb
store-words pre i (a ∷ b ∷ c ∷ []) rest (ha, (hb, (hc, _))) e =
    unfold store in store_three pre rest i e a b c [] ha hb hc
store-words pre i (a ∷ b ∷ c ∷ d ∷ xs) rest (ha, (hb, (hc, (hd, h)))) e =
    let w = a + b * 256 + c * 65536 + d * 16777216 in
    let zeros = replicate (length (words xs)) 0 ++ rest in
    store_four pre zeros i e a b c d xs ha hb hc hd
    ∙ (rw (← append_assoc pre (w ∷ []) zeros, ← append_assoc pre (w ∷ []) (words xs ++ rest))
        (store-words (pre ++ w ∷ []) (i + 1 + 1 + 1 + 1) xs rest h
          (omega (arith, length-append pre (w ∷ [])))))
