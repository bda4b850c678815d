-- ===== src/Md5/Padding.antt =====
-- `MD5::Padding` against the padding of RFC 1321: the message, a byte 0x80, zero words up to two
-- short of a multiple of sixteen, and the length in bits as two words.
use calabash.Base.{
  set-length-append, length-replicate, set, replicate-add, sym, All-append, ℕ, ◌+◌, ◌-◌, ◌*◌, ◌/◌,
  ◌%◌, ◌^◌, ◌<◌, ◌≡◌, refl, ◌∙◌, ap, List, [], ◌∷◌, ◌++◌, append_assoc, Bytes, All, length,
  length-append, replicate, arith,
}
use calabash.Md5.Store.{words, store, fill-eq-store, store-append, store-words}
use calabash.Md5.{block_count, padding, u32, or_at, fill}

-- The fewest zero words after `n` words that leave room for two more in a whole block.
abbrev pub gap : ℕ → ℕ
gap n = (30 - n % 16) % 16

unfoldable pub rfc_words : Bytes → List ℕ
unfolding words
rfc_words src =
    let message = words (src ++ 0x80 ∷ []) in
    message ++ (replicate (gap (length message)) 0 ++ (length src * 8) ∷ 0 ∷ [])

length-words : (bs : Bytes) → length (words bs) ≡ (length bs + 3) / 4
unfolding words
length-words [] = omega arith
length-words (a ∷ []) = omega arith
length-words (a ∷ b ∷ []) = omega arith
length-words (a ∷ b ∷ c ∷ []) = omega arith
length-words (a ∷ b ∷ c ∷ d ∷ xs) = omega (arith, length-words xs)

length-words_message : (src : Bytes) → length (words (src ++ 0x80 ∷ [])) ≡ length src / 4 + 1
length-words_message src =
    omega (arith, length-words (src ++ 0x80 ∷ []), length-append src (0x80 ∷ []))

All-below_256 : (xs : Bytes) → All (λ c. c < 128) xs → All (λ c. c < 256) xs
All-below_256 [] h = tt
All-below_256 (x ∷ xs) (p, h) = (omega arith, All-below_256 xs h)

-- The message with its mark, in a vector of `m` words more than it takes.
store_message :
    (src : Bytes) (m : ℕ)
    → All (λ c. c < 128) src
    → let n = length (words (src ++ 0x80 ∷ [])) in
      or_at
        (fill (replicate (n + m) 0) 0 src)
        (length src / 4)
        (u32 (0x80 * 2 ^ (length src % 4 * 8)))
      ≡ words (src ++ 0x80 ∷ []) ++ replicate m 0
store_message src m h =
    let n = length (words (src ++ 0x80 ∷ [])) in
    let bytes = All-append (λ c. c < 256) src (0x80 ∷ []) (All-below_256 src h) (omega arith, tt) in
    let start : 0 + length src ≡ length src = omega arith in
    rw (fill-eq-store (replicate (n + m) 0) 0 src h) (
      unfold store in
      (rw start at (sym (store-append (replicate (n + m) 0) 0 src (0x80 ∷ []))))
      ∙ rw (replicate-add {A = ℕ} n m 0)
          (store-words [] 0 (src ++ 0x80 ∷ []) (replicate m 0) bytes refl))

-- The vector has room for the message, the gap and the length.
size-eq :
    (src : Bytes)
    → length src < 2 ^ 29
    → let n = length (words (src ++ 0x80 ∷ [])) in u32 (block_count src * 16) ≡ n + gap n + 2
unfolding block_count
size-eq src small = omega (arith, length-words_message src)

-- Writing the length two words before the end.
set-length :
    (xs : List ℕ) (g v s : ℕ)
    → s ≡ length xs + g
    → set (xs ++ replicate (g + 2) 0) s v ≡ xs ++ (replicate g 0 ++ v ∷ 0 ∷ [])
set-length xs g v s e =
    let front = xs ++ replicate g 0 in
    let len : length front ≡ s =
      omega (arith, length-append xs (replicate g 0), length-replicate {A = ℕ} g 0) in
    rw (replicate-add {A = ℕ} g 2 0, ← append_assoc xs (replicate g 0) (0 ∷ 0 ∷ []), ← len)
      (set-length-append front 0 v (0 ∷ []) ∙ append_assoc xs (replicate g 0) (v ∷ 0 ∷ []))

-- Whatever the ASCII text, of less than 2^29 bytes, the words that are hashed are those of RFC 1321.
pub padding-eq-rfc_words :
    (src : Bytes) → All (λ c. c < 128) src → length src < 2 ^ 29 → padding src ≡ rfc_words src
unfolding rfc_words
padding-eq-rfc_words src h small =
    let n = length (words (src ++ 0x80 ∷ [])) in
    let mark = u32 (0x80 * 2 ^ (length src % 4 * 8)) in
    let bits : u32 (length src * 2 ^ 3) ≡ length src * 8 = omega arith in
    let build = λ (s : ℕ).
      set (or_at (fill (replicate s 0) 0 src) (length src / 4) mark) (s - 2)
        (u32 (length src * 2 ^ 3)) in
    let size : u32 (block_count src * 16) ≡ n + (gap n + 2) = omega (arith, size-eq src small) in
    unfold padding in
    (ap build size
      ∙ rw (store_message src (gap n + 2) h, bits)
          (set-length (words (src ++ 0x80 ∷ [])) (gap n) (length src * 8) (n + (gap n + 2) - 2)
            (omega arith)))
