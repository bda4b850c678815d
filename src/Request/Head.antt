-- ===== src/Request/Head.antt =====
-- A request head as a client writes it, read by `ParseHttpHeader`; and a head without headers.
use calabash.Base.{
  ◌⊎◌, inl, inr, Bool-cases, ℕ, suc, ◌+◌, ◌-◌, ◌≤◌, ◌≡◌, refl, ◌∙◌, true, List, [], ◌∷◌, ◌++◌,
  Bytes, All, length, length-append, arith, ok, fault, ◌>>=◌,
}
use calabash.Request.{Request, parse_headers, parse_target, parse_http_header}
use calabash.Request.Headers.{
  Header, value, IsHeader, header_line, render_headers, render_headers, emplace_all, emplace_all,
  parse_headers-render, parse_headers-render, parse_headers-render,
}
use calabash.Words.{is_space, skip_space, get_next_word}
use calabash.Words.Scan.{
  get_next_word-fault, IsWordChar, IsLineChar, get_next_word-append, skip_space-word,
  get_next_line-fault,
}

-- A request line, at least one header, and a body.
abbrev pub request_text : Bytes → Bytes → Bytes → List Header → Bytes → Bytes
request_text method target version hs body =
    method ++ b' ' ∷ (target ++ b' ' ∷ (version ++ 13 ∷ 10 ∷ render_headers hs body))

length-render_headers :
    (hs : List Header) (body : Bytes)
    → length (render_headers hs body) ≡ length (render_headers hs []) + length body
length-render_headers [] body = omega arith
length-render_headers (h ∷ hs) body = omega (
  arith,
  length-append (header_line h) (13 ∷ 10 ∷ render_headers hs body),
  length-append (header_line h) (13 ∷ 10 ∷ render_headers hs []),
  length-render_headers hs body,
)

length-le-render : (hs : List Header) (body : Bytes) → length hs ≤ length (render_headers hs body)
length-le-render [] body = omega arith
length-le-render (h ∷ hs) body = omega (
  arith,
  length-append (header_line h) (13 ∷ 10 ∷ render_headers hs body),
  length-le-render hs body,
)

pub length-request_text :
    (m t v : Bytes) (hs : List Header) (body : Bytes)
    → length (request_text m t v hs body) ≡ length (request_text m t v hs []) + length body
length-request_text m t v hs body =
    let text = λ (b : Bytes). t ++ b' ' ∷ (v ++ 13 ∷ 10 ∷ render_headers hs b) in
    omega (
      arith,
      length-append m (b' ' ∷ text body),
      length-append m (b' ' ∷ text []),
      length-append t (b' ' ∷ (v ++ 13 ∷ 10 ∷ render_headers hs body)),
      length-append t (b' ' ∷ (v ++ 13 ∷ 10 ∷ render_headers hs [])),
      length-append v (13 ∷ 10 ∷ render_headers hs body),
      length-append v (13 ∷ 10 ∷ render_headers hs []),
      length-render_headers hs body,
    )

-- A nonempty word without white space.
pub data IsWord : Bytes → Type 0 where
  word : (c : ℕ) (w : Bytes) → All IsWordChar (c ∷ w) → IsWord (c ∷ w)

next_word :
    (w : Bytes) (s : ℕ) (rest out : Bytes)
    → IsWord w
    → is_space s ≡ true
    → skip_space rest ≡ ok out
    → get_next_word (w ++ s ∷ rest) ≡ ok (w, out)
next_word _ s rest out (word c w h) hs e = get_next_word-append c w s rest out h hs e

skip_space-IsWord : (w rest : Bytes) → IsWord w → skip_space (w ++ rest) ≡ ok (w ++ rest)
skip_space-IsWord _ rest (word c w h) = skip_space-word c (w ++ rest) h.0

-- A well-formed head, with at least one header, is read back field by field, whatever body follows:
-- the three words, the headers in order, and the number of bytes in front of the body. What becomes of
-- the request is then up to the target.
pub parse_http_header-request_text :
    (method target version body : Bytes) (h : Header) (hs : List Header) (req : Request)
    → IsWord method
    → IsWord target
    → IsWord version
    → All IsHeader (h ∷ hs)
    → parse_http_header (request_text method target version (h ∷ hs) body) req ≡ (do
      parsed ← parse_target target (record req {
        method = method;
        path = target;
        version = version;
        headers = emplace_all (h ∷ hs) req.headers;
      })
      ok (parsed, length (request_text method target version (h ∷ hs) [])))
unfolding parse_http_header
parse_http_header-request_text method target version body h hs req hm ht hv v =
    let headers = render_headers (h ∷ hs) body in
    let lines = version ++ 13 ∷ 10 ∷ headers in
    let first : skip_space headers ≡ ok headers =
      skip_space-word h.name_head
        (h.name_tail ++ b':' ∷ b' ' ∷ value h ++ 13 ∷ 10 ∷ render_headers hs body)
        v.0.name_chars.0 in
    let size : length (request_text method target version (h ∷ hs) body) - length body
        ≡ length (request_text method target version (h ∷ hs) []) =
      omega (arith, length-request_text method target version (h ∷ hs) body) in
    let crlf : skip_space (10 ∷ headers) ≡ ok headers = unfold skip_space in first in
    rw (
      next_word method b' ' (target ++ b' ' ∷ lines) (target ++ b' ' ∷ lines) hm refl
          (skip_space-IsWord target (b' ' ∷ lines) ht),
      next_word target b' ' lines lines ht refl (skip_space-IsWord version (13 ∷ 10 ∷ headers) hv),
      next_word version 13 (10 ∷ headers) headers hv refl crlf,
      parse_headers-render (suc (length headers)) (h ∷ hs) body
          (record req { method = method; path = target; version = version }) v
          (omega (arith, length-le-render (h ∷ hs) body)),
      size,
    )

skip_space-lines :
    (mem : Bytes)
    → All IsLineChar mem
    → (skip_space mem ≡ fault) ⊎ ((out : Bytes) × (skip_space mem ≡ ok out) × All IsLineChar out)
unfolding skip_space
skip_space-lines [] h = inl refl
skip_space-lines (c ∷ mem) (hc, h) = elim (Bool-cases (is_space c)) [
  | inl space ↦ rw space (skip_space-lines mem h)
  | inr other ↦ rw other (inr (c ∷ mem, refl, (hc, h)))
]

next_word-fault :
    (w : Bytes) (s : ℕ) (rest : Bytes)
    → IsWord w
    → is_space s ≡ true
    → skip_space rest ≡ fault
    → get_next_word (w ++ s ∷ rest) ≡ fault
next_word-fault _ s rest (word c w h) hs e = get_next_word-fault c w s rest h hs e

-- A request without headers, in a memory that ends with its body, is not read if the body has no line
-- break: the search for the next word skips the blank line behind the three words as well, and the search
-- for a line then runs off the memory.
pub parse_http_header-no_headers :
    (method target version body : Bytes) (req : Request)
    → IsWord method
    → IsWord target
    → IsWord version
    → All IsLineChar body
    → parse_http_header (request_text method target version [] body) req ≡ fault
unfolding parse_http_header parse_headers
parse_http_header-no_headers method target version body req hm ht hv v =
    let lines = version ++ 13 ∷ 10 ∷ 13 ∷ 10 ∷ body in
    let breaks : skip_space (10 ∷ 13 ∷ 10 ∷ body) ≡ skip_space body = unfold skip_space in refl in
    let one =
      next_word method b' ' (target ++ b' ' ∷ lines) (target ++ b' ' ∷ lines) hm refl
        (skip_space-IsWord target (b' ' ∷ lines) ht) in
    let two =
      next_word target b' ' lines lines ht refl
        (skip_space-IsWord version (13 ∷ 10 ∷ 13 ∷ 10 ∷ body) hv) in
    elim (skip_space-lines body v) [
      | inl none_left ↦
          rw (
            one,
            two,
            next_word-fault version 13 (10 ∷ 13 ∷ 10 ∷ body) hv refl (breaks ∙ none_left),
          )
      | inr (out, left, chars) ↦ rw (
        one,
        two,
        next_word version 13 (10 ∷ 13 ∷ 10 ∷ body) out hv refl (breaks ∙ left),
        get_next_line-fault out chars,
      )
    ]
