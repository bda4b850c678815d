-- ===== src/Request/Headers.antt =====
-- Header lines as a client writes them, read by the loop of `ParseHttpHeader`.
use calabash.Base.{
  ℕ, zero, suc, ◌<◌, ◌≡◌, refl, List, [], ◌∷◌, ◌++◌, Bytes, All, length, arith, ok, append_assoc,
  All-append, All-mono,
}
use calabash.Dict.{emplace}
use calabash.Request.{Request, pop_back, parse_header_line, parse_headers}
use calabash.Words.{get_next_line}
use calabash.Words.Scan.{
  IsWordChar, IsLineChar, get_next_word-append, get_next_line-append, get_next_line-newline,
  skip_space-word,
}

-- A header's name, which has no white space in it, and its value, which begins with none.
pub record Header : Type 0 where
  pub name_head : ℕ
  pub name_tail : Bytes
  pub value_head : ℕ
  pub value_tail : Bytes

abbrev pub name : Header → Bytes
name h = h.name_head ∷ h.name_tail

abbrev pub value : Header → Bytes
value h = h.value_head ∷ h.value_tail

pub record IsHeader (h : Header) : Type 0 where
  pub name_chars : All IsWordChar (name h)
  pub value_first : IsWordChar h.value_head
  pub value_chars : All IsLineChar (value h)

abbrev pub header_line : Header → Bytes
header_line h = name h ++ b':' ∷ b' ' ∷ value h

abbrev pub render_headers : List Header → Bytes → Bytes
render_headers [] body = 13 ∷ 10 ∷ body
render_headers (h ∷ hs) body = header_line h ++ 13 ∷ 10 ∷ render_headers hs body

abbrev pub emplace_all : List Header → List (Bytes × Bytes) → List (Bytes × Bytes)
emplace_all [] m = m
emplace_all (h ∷ hs) m = emplace_all hs (emplace (name h) (value h) m)

pop_back-append : (xs : Bytes) (c : ℕ) → pop_back (xs ++ c ∷ []) ≡ ok xs
unfolding pop_back
pop_back-append [] c = refl
pop_back-append (x ∷ []) c = refl
pop_back-append (x ∷ y ∷ xs) c = rw (pop_back-append (y ∷ xs) c)

word_is_line : (c : ℕ) → IsWordChar c → IsLineChar c
word_is_line c h = (ground arith, ground arith)

parse_header_line-header :
    (h : Header) → IsHeader h → parse_header_line (header_line h) ≡ ok (name h, value h)
unfolding parse_header_line
parse_header_line-header h v =
    let word = h.name_tail ++ b':' ∷ [] in
    let rest = value h ++ 10 ∷ 0 ∷ [] in
    let shape : header_line h ++ 10 ∷ 0 ∷ [] ≡ h.name_head ∷ (word ++ b' ' ∷ rest) =
      simp append_assoc in
    rw (
      shape,
      get_next_word-append h.name_head word b' ' rest rest
          (All-append IsWordChar (name h) (b':' ∷ []) v.name_chars (refl, tt)) refl
          (skip_space-word h.value_head (h.value_tail ++ 10 ∷ 0 ∷ []) v.value_first),
      get_next_line-newline (value h) (0 ∷ []) v.value_chars,
      pop_back-append (name h) b':',
    )

header_line-chars : (h : Header) → IsHeader h → All IsLineChar (header_line h)
header_line-chars h v =
    All-append IsLineChar (name h) (b':' ∷ b' ' ∷ value h)
      (All-mono IsWordChar IsLineChar word_is_line (name h) v.name_chars)
      ((omega arith, omega arith), ((omega arith, omega arith), v.value_chars))

pub parse_headers-render :
    (fuel : ℕ) (hs : List Header) (body : Bytes) (req : Request)
    → All IsHeader hs
    → length hs < fuel
    → parse_headers fuel (render_headers hs body) req
      ≡ ok (record req { headers = emplace_all hs req.headers }, body)
unfolding parse_headers
parse_headers-render zero hs body req v h = absurd (omega arith)
parse_headers-render (suc fuel) [] body req v h =
    let here : get_next_line (13 ∷ 10 ∷ body) ≡ ok ([], body) = get_next_line-append [] body tt in
    rw here
parse_headers-render (suc fuel) (h ∷ hs) body req (v, vs) lt =
    rw
      (
        get_next_line-append (header_line h) (render_headers hs body) (header_line-chars h v),
        parse_header_line-header h v,
      )
      (parse_headers-render fuel hs body
        (record req { headers = emplace (name h) (value h) req.headers }) vs (omega arith))
