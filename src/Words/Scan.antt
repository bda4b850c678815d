-- ===== src/Words/Scan.antt =====
-- `GetNextWord` and `GetNextLine` on the text that they are meant for, and on white space in front.
use calabash.Base.{
  Outcome-cases, not-IsOk-throw, not-IsOk-fault, ℕ, ◌≤◌, ◌≡◌, ◌≢◌, refl, true, false, [], ◌∷◌, ◌++◌,
  Bytes, All, length, ◌==◌, arith, ok, fault, inl, inr, IsOk,
}
use calabash.Words.{is_space, skip_space, take_word, get_next_word, get_next_line, length_error}

-- A character of a word, and of a line.
abbrev pub IsWordChar : ℕ → Type 0
IsWordChar c = is_space c ≡ false

abbrev pub IsLineChar : ℕ → Type 0
IsLineChar c = (c ≢ 13) × (c ≢ 10)

pub skip_space-word : (c : ℕ) (mem : Bytes) → IsWordChar c → skip_space (c ∷ mem) ≡ ok (c ∷ mem)
unfolding skip_space
skip_space-word c mem h = rw h

skip_space-space : (c : ℕ) (mem : Bytes) → is_space c ≡ true → skip_space (c ∷ mem) ≡ skip_space mem
unfolding skip_space
skip_space-space c mem h = rw h

take_word-append :
    (w : Bytes) (s : ℕ) (rest : Bytes)
    → All IsWordChar w
    → is_space s ≡ true
    → take_word (w ++ s ∷ rest) ≡ ok (w, s ∷ rest)
unfolding take_word
take_word-append [] s rest h hs = rw hs
take_word-append (c ∷ w) s rest (hc, h) hs = rw (hc, take_word-append w s rest h hs)

-- A word with white space behind it and more text behind that.
pub get_next_word-append :
    (c : ℕ) (w : Bytes) (s : ℕ) (rest : Bytes) (out : Bytes)
    → All IsWordChar (c ∷ w)
    → is_space s ≡ true
    → skip_space rest ≡ ok out
    → get_next_word (c ∷ w ++ s ∷ rest) ≡ ok (c ∷ w, out)
unfolding get_next_word
get_next_word-append c w s rest out h hs e =
    rw
      (
        skip_space-word c (w ++ s ∷ rest) h.0,
        take_word-append (c ∷ w) s rest h hs,
        skip_space-space s rest hs,
        e,
      )
      (ground arith)

-- The same where the buffer ends in the white space.
pub get_next_word-fault :
    (c : ℕ) (w : Bytes) (s : ℕ) (rest : Bytes)
    → All IsWordChar (c ∷ w)
    → is_space s ≡ true
    → skip_space rest ≡ fault
    → get_next_word (c ∷ w ++ s ∷ rest) ≡ fault
unfolding get_next_word
get_next_word-fault c w s rest h hs e =
    rw
      (
        skip_space-word c (w ++ s ∷ rest) h.0,
        take_word-append (c ∷ w) s rest h hs,
        skip_space-space s rest hs,
        e,
      )
      (ground arith)

skip_space-length : (mem out : Bytes) → skip_space mem ≡ ok out → length out ≤ length mem
unfolding skip_space
skip_space-length [] out e = cc
skip_space-length (c ∷ mem) out e = ground (arith, skip_space-length mem out)

-- White space in front is never skipped over: the call throws, or runs off the buffer.
pub get_next_word-space :
    (s : ℕ) (mem : Bytes) → is_space s ≡ true → ¬ IsOk (get_next_word (s ∷ mem))
unfolding get_next_word
get_next_word-space s mem hs = elim (Outcome-cases (skip_space mem)) [
  | inl (out, e) ↦
      let here : take_word (s ∷ mem) ≡ ok ([], s ∷ mem) = unfold take_word in rw hs in
      let short : (length out == length (s ∷ mem)) ≡ false =
        ground (arith, skip_space-length mem out e) in
      rw (skip_space-space s mem hs, e, here, short) (not-IsOk-throw (Bytes × Bytes) length_error)
  | inr (inl (x, e)) ↦ rw (skip_space-space s mem hs, e) (not-IsOk-throw (Bytes × Bytes) x)
  | inr (inr e) ↦ rw (skip_space-space s mem hs, e) (not-IsOk-fault (Bytes × Bytes))
]

pub get_next_line-append :
    (line rest : Bytes)
    → All IsLineChar line
    → get_next_line (line ++ 13 ∷ 10 ∷ rest) ≡ ok (line, rest)
unfolding get_next_line
get_next_line-append [] rest h = refl
get_next_line-append (c ∷ line) rest (hc, h) = ground (arith, get_next_line-append line rest h)

pub get_next_line-newline :
    (line rest : Bytes) → All IsLineChar line → get_next_line (line ++ 10 ∷ rest) ≡ ok (line, rest)
unfolding get_next_line
get_next_line-newline [] rest h = refl
get_next_line-newline (c ∷ line) rest (hc, h) = ground (arith, get_next_line-newline line rest h)

-- Text with no line break in it runs off the buffer.
pub get_next_line-fault : (line : Bytes) → All IsLineChar line → get_next_line line ≡ fault
unfolding get_next_line
get_next_line-fault [] h = refl
get_next_line-fault (c ∷ line) (hc, h) = ground (arith, get_next_line-fault line h)
