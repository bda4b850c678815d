-- ===== src/Request/Whole.antt =====
-- `Parse` on a request that a client sends in one or more chunks.
use calabash.Base.{
  Bool-cases, inl, inr, ℕ, ◌≡◌, refl, ◌∙◌, sym, ap, true, false, List, [], ◌∷◌, ◌++◌, Bytes, All,
  length, length-append, is_empty, drop, ◌==◌, if◌then◌else◌, arith, ok, append_assoc, codes,
}
use calabash.Request.{
  Request, header, parse_target, load_body, mark_json, parse, test_content_type_multipart,
  test_content_type_json,
}
use calabash.Request.Head.{IsWord, word, request_text, parse_http_header-request_text}
use calabash.Request.Headers.{Header, IsHeader, emplace_all, render_headers, header_line}
use calabash.Request.Body.{flatten, load_body_whole}

render_headers-append :
    (hs : List Header) (body rest : Bytes)
    → render_headers hs body ++ rest ≡ render_headers hs (body ++ rest)
render_headers-append [] body rest = refl
render_headers-append (h ∷ hs) body rest =
    append_assoc (header_line h) (13 ∷ 10 ∷ render_headers hs body) rest
    ∙ ap (λ (xs : Bytes). header_line h ++ 13 ∷ 10 ∷ xs) (render_headers-append hs body rest)

request_text-append :
    (m t v : Bytes) (hs : List Header) (body rest : Bytes)
    → request_text m t v hs body ++ rest ≡ request_text m t v hs (body ++ rest)
request_text-append m t v hs body rest = simp (append_assoc, render_headers-append)

-- The request that `Parse` leaves: what the head says, the address, the size and the body, and whether
-- the content type is that of JSON.
abbrev pub finished : Request → Bytes → ℕ → Bytes → Request
finished read ip size body = record read {
  is_json =
      if test_content_type_json (header read (codes "Content-Type")) then true else read.is_json;
  body_size = size;
  from_ip = ip;
  body = body;
}

not_empty :
    (m t v body : Bytes) (hs : List Header)
    → IsWord m
    → is_empty (request_text m t v hs body) ≡ false
not_empty _ t v body hs (word c w h) = refl

-- What `mark_json` adds to a request that was read.
mark_json_lem :
    (read : Request) (ip : Bytes) (size : ℕ) (body : Bytes)
    → mark_json (record {
      result = true;
      req = record read { body_size = size; from_ip = ip; body = body };
      chunks = [];
    })
      ≡ record { result = true; req = finished read ip size body; chunks = [] }
unfolding mark_json
mark_json_lem read ip size body =
    let json = codes "Content-Type" in
    let same : header (record read { body_size = size; from_ip = ip; body = body }) json
        ≡ header read json =
      unfold header in refl in
    elim (Bool-cases (test_content_type_json (header read json))) [
      | inl is ↦ rw (same, is)
      | inr is_not ↦ rw (same, is_not)
    ]

-- A request with plain words, at least one plain header and a target that is read, whose content type
-- is not multipart and whose `Content-Length` is the size of its body, is read whole if its first chunk
-- holds the whole head, and any part of the body, and the rest of the body comes in chunks that are not
-- empty: what the head says, the address, the body joined from the chunks and its size.
pub parse-request_text :
    (strtol : Bytes → ℕ) (stale ip method target version first : Bytes) (h : Header)
    (hs : List Header) (chunks : List Bytes) (req read : Request)
    → IsWord method
    → IsWord target
    → IsWord version
    → All IsHeader (h ∷ hs)
    → parse_target target (record req {
      method = method;
      path = target;
      version = version;
      headers = emplace_all (h ∷ hs) req.headers;
    })
      ≡ ok read
    → test_content_type_multipart (header read (codes "Content-Type")) ≡ false
    → strtol (header read (codes "Content-Length")) ≡ length (first ++ flatten chunks)
    → All (λ c. is_empty c ≡ false) chunks
    → parse strtol stale ip (request_text method target version (h ∷ hs) first ∷ chunks) req
      ≡ ok (record {
        result = true;
        req = finished read ip (length (first ++ flatten chunks)) (first ++ flatten chunks);
        chunks = [];
      })
unfolding parse
parse-request_text strtol stale ip method target version first h hs chunks req read hm ht hv v et
      multi size hc =
    let text = request_text method target version (h ∷ hs) in
    let beyond = drop (length (text first)) stale in
    let body = first ++ flatten chunks in
    let sized = record read { body_size = length body; from_ip = ip } in
    let positive : (length (text []) == 0) ≡ false = ground (
      arith,
      length-append method
          (b' ' ∷ (target ++ b' ' ∷ (version ++ 13 ∷ 10 ∷ render_headers (h ∷ hs) []))),
    ) in
    let plain : test_content_type_multipart (header sized (codes "Content-Type")) ≡ false =
      unfold header in multi in
    let pieces : text first ≡ text [] ++ first =
      sym (request_text-append method target version (h ∷ hs) [] first) in
    let loaded : load_body (text first) (length (text [])) sized chunks
        ≡ ok (record { result = true; req = record sized { body = body }; chunks = [] }) =
      rw pieces (load_body_whole (text []) first chunks sized hc refl) in
    rw (
      not_empty method target version first (h ∷ hs) hm,
      request_text-append method target version (h ∷ hs) first beyond,
      parse_http_header-request_text method target version (first ++ beyond) h hs req hm ht hv v,
      et,
      positive,
      size,
      plain,
      loaded,
      mark_json_lem read ip (length body) body,
    )
