-- ===== src/Request/Body.antt =====
-- The body of a request: `Parse` collects chunks until the announced size is there.
use calabash.Base.{
  drop-length-append, ◌↔◌, ℕ, ◌≡◌, refl, ◌∙◌, ap, true, false, List, [], ◌∷◌, ◌++◌, Bytes, All,
  length, length-append, is_empty, leb, ltb, arith, ok, append_assoc, append-nil, Bool-cases, inl,
  inr,
}
use calabash.Request.{read_body, load_body, Request, starts_with}

abbrev pub flatten : List Bytes → Bytes
flatten [] = []
flatten (c ∷ cs) = c ++ flatten cs

-- What is read and what is left make up what the socket delivers.
pub read_body-flatten :
    (size : ℕ) (body : Bytes) (chunks : List Bytes)
    → let r = read_body size body chunks in r.1 ++ flatten r.2 ≡ body ++ flatten chunks
unfolding read_body
read_body-flatten size body [] = refl
read_body-flatten size body ([] ∷ chunks) = elim (Bool-cases (leb size (length body))) [
  | inl whole ↦ rw whole
  | inr short ↦ rw short
]
read_body-flatten size body ((c ∷ cs) ∷ chunks) = elim (Bool-cases (leb size (length body))) [
  | inl whole ↦ rw whole
  | inr short ↦
      rw short (
        read_body-flatten size (body ++ c ∷ cs) chunks
        ∙ append_assoc body (c ∷ cs) (flatten chunks))
]

-- A body that came whole has at least the announced size; one that did not has less.
pub read_body-size :
    (size : ℕ) (body : Bytes) (chunks : List Bytes)
    → let r = read_body size body chunks in r.0 ≡ leb size (length r.1)
unfolding read_body
read_body-size size body [] = refl
read_body-size size body ([] ∷ chunks) = elim (Bool-cases (leb size (length body))) [
  | inl whole ↦ rw (whole, whole)
  | inr short ↦ rw (short, short)
]
read_body-size size body ((c ∷ cs) ∷ chunks) = elim (Bool-cases (leb size (length body))) [
  | inl whole ↦ rw (whole, whole)
  | inr short ↦ rw short (read_body-size size (body ++ c ∷ cs) chunks)
]

-- A body that the peer sends in chunks, and nothing after it, is read whole.
pub read_body_whole :
    (size : ℕ) (body : Bytes) (chunks : List Bytes)
    → All (λ c. is_empty c ≡ false) chunks
    → length (body ++ flatten chunks) ≡ size
    → read_body size body chunks ≡ (true, body ++ flatten chunks, [])
unfolding read_body
read_body_whole size body [] h e =
    let here : leb size (length body) ≡ true =
      ground (arith, e, ap (λ (xs : Bytes). length xs) (append-nil body)) in
    rw (here, append-nil)
read_body_whole size body ([] ∷ chunks) (hc, h) e = cc
read_body_whole size body ((c ∷ cs) ∷ chunks) (hc, h) e =
    let short : leb size (length body) ≡ false =
      ground (arith, e, length-append body (c ∷ (cs ++ flatten chunks))) in
    let assoc = append_assoc body (c ∷ cs) (flatten chunks) in
    rw (
      short,
      read_body_whole size (body ++ c ∷ cs) chunks h (ap (λ (xs : Bytes). length xs) assoc ∙ e),
      assoc,
    )

-- Where the first chunk holds the head and some of the body, `Parse` leaves as body the text behind the
-- head and then the other chunks.
pub load_body_whole :
    (head first_body : Bytes) (chunks : List Bytes) (req : Request)
    → All (λ c. is_empty c ≡ false) chunks
    → length (first_body ++ flatten chunks) ≡ req.body_size
    → load_body (head ++ first_body) (length head) req chunks
      ≡ ok (record {
        result = true;
        req = record req { body = first_body ++ flatten chunks };
        chunks = [];
      })
unfolding load_body
load_body_whole head first_body chunks req h e =
    let room : ltb (length (head ++ first_body)) (length head) ≡ false =
      ground (arith, length-append head first_body) in
    rw (
      room,
      drop-length-append head first_body,
      read_body_whole req.body_size first_body chunks h e,
    )

-- `starts_with` finds exactly the prefixes.
pub starts_with_iff :
    (text str : Bytes) → (starts_with text str ≡ true) ↔ ((rest : Bytes) × (str ≡ text ++ rest))
unfolding starts_with
starts_with_iff [] str = (λ h. (str, refl), λ r. refl)
starts_with_iff (t ∷ text) [] = (λ h. cc, λ r. cc (r.1))
starts_with_iff (t ∷ text) (c ∷ str) =
    let ih = starts_with_iff text str in
    (
      λ h. let r = ih.0 (ground (arith, h)) in (r.0, ground (arith, h, r.1)),
      λ r. ground (arith, r.1, ih.1 (r.0, ground (arith, r.1))),
    )
