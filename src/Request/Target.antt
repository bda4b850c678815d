-- ===== src/Request/Target.antt =====
-- The request target: the path, and what becomes of a parameter.
use calabash.Base.{
  All-append, All-mono, ℕ, ◌≡◌, ◌≢◌, refl, true, false, [], ◌∷◌, ◌++◌, Bytes, All, ◌==◌, arith, ok,
  fault, ◌>>=◌, append_assoc, append-nil, drop-length-append,
}
use calabash.Dict.{emplace}
use calabash.Url.{url_decode}
use calabash.Url.RoundTrip.{url_decode-plain}
use calabash.Request.{Request, take_key, parse_param, parse_params, parse_target}
use calabash.Words.{split, split_from}

-- Characters that stand for themselves in a target.
abbrev pub IsPlain : ℕ → Type 0
IsPlain c = (c ≢ b'%') × (c ≢ b'?') × (c ≢ b'&') × (c ≢ b'=')

url_decode-IsPlain : (xs : Bytes) → All (λ c. c ≢ b'%') xs → url_decode xs ≡ ok xs
url_decode-IsPlain [] h = unfold url_decode in refl
url_decode-IsPlain (c ∷ xs) (hc, h) =
    let other : (c == b'%') ≡ false = ground arith in
    rw (url_decode-plain c xs other, url_decode-IsPlain xs h)

split_from-none :
    (ch : ℕ) (cur str : Bytes) → All (λ c. c ≢ ch) str → split_from ch cur str ≡ (cur ++ str) ∷ []
unfolding split_from
split_from-none ch cur [] h = rw append-nil
split_from-none ch cur (c ∷ str) (hc, h) =
    let other : (c == ch) ≡ false = ground arith in
    rw (other, split_from-none ch (cur ++ c ∷ []) str h, append_assoc cur (c ∷ []) str)

split_from-append :
    (ch : ℕ) (cur xs : Bytes) (y : ℕ) (ys : Bytes)
    → All (λ c. c ≢ ch) xs
    → split_from ch cur (xs ++ ch ∷ y ∷ ys) ≡ (cur ++ xs) ∷ split_from ch [] (y ∷ ys)
unfolding split_from
split_from-append ch cur [] y ys h =
    let same : (ch == ch) ≡ true = ground arith in rw (same, append-nil)
split_from-append ch cur (c ∷ xs) y ys (hc, h) =
    let other : (c == ch) ≡ false = ground arith in
    rw (other, split_from-append ch (cur ++ c ∷ []) xs y ys h, append_assoc cur (c ∷ []) xs)

-- A target without a query is decoded as a whole.
pub parse_target-path :
    (c : ℕ) (path : Bytes) (req : Request)
    → All (λ c. c ≢ b'?') (c ∷ path)
    → parse_target (c ∷ path) req ≡ (do p ← url_decode (c ∷ path); ok (record req { path = p }))
unfolding parse_target split
parse_target-path c path req h = rw (split_from-none b'?' [] (c ∷ path) h, parse_target)

take_key-append :
    (key val : Bytes) → All (λ c. c ≢ b'=') key → take_key (key ++ b'=' ∷ val) ≡ ok key
unfolding take_key
take_key-append [] val h = refl
take_key-append (c ∷ key) val (hc, h) = ground (arith, take_key-append key val h)

take_key-fault : (text : Bytes) → All (λ c. c ≢ b'=') text → take_key text ≡ fault
unfolding take_key
take_key-fault [] h = refl
take_key-fault (c ∷ text) (hc, h) = ground (arith, take_key-fault text h)

-- Characters of a key that stand for themselves.
abbrev pub IsKeyChar : ℕ → Type 0
IsKeyChar c = (c ≢ b'=') × (c ≢ b'%')

-- For a parameter `key=val` with a plain key and value, the value that is stored is `=val`.
pub parse_param-keeps_sign :
    (key val : Bytes) (req : Request)
    → All IsKeyChar key
    → All (λ c. c ≢ b'%') val
    → parse_param (key ++ b'=' ∷ val) req
      ≡ ok (record req { params = emplace key (b'=' ∷ val) req.params })
unfolding parse_param
parse_param-keeps_sign key val req hk hv = rw (
  take_key-append key val (All-mono IsKeyChar (λ c. c ≢ b'=') (λ c h. h.0) key hk),
  url_decode-IsPlain key (All-mono IsKeyChar (λ c. c ≢ b'%') (λ c h. h.1) key hk),
  drop-length-append key (b'=' ∷ val),
  url_decode-IsPlain (b'=' ∷ val) (omega arith, hv),
)

-- In a parameter without `=` the search for the sign runs off the string.
pub parse_param-fault :
    (text : Bytes) (req : Request) → All (λ c. c ≢ b'=') text → parse_param text req ≡ fault
unfolding parse_param
parse_param-fault text req h = rw (take_key-fault text h)

-- Characters of a path, of a key and of a value that stand for themselves in a target.
abbrev pub IsPathChar : ℕ → Type 0
IsPathChar c = (c ≢ b'?') × (c ≢ b'%')

abbrev pub IsValueChar : ℕ → Type 0
IsValueChar c = (c ≢ b'?') × (c ≢ b'&') × (c ≢ b'%')

abbrev pub IsParamChar : ℕ → Type 0
IsParamChar c = IsValueChar c × (c ≢ b'=')

-- A target with one plain parameter `key=val` stores the value `=val`, with the sign in front.
pub parse_target-param :
    (p k : ℕ) (path key val : Bytes) (req : Request)
    → All IsPathChar (p ∷ path)
    → All IsParamChar (k ∷ key)
    → All IsValueChar val
    → parse_target (p ∷ (path ++ b'?' ∷ k ∷ (key ++ b'=' ∷ val))) req
      ≡ ok (record req { path = p ∷ path; params = emplace (k ∷ key) (b'=' ∷ val) req.params })
unfolding parse_target split parse_params
parse_target-param p k path key val req hp hk hv =
    let query = k ∷ (key ++ b'=' ∷ val) in
    let query_chars : All (λ c. (c ≢ b'?') × (c ≢ b'&')) query =
      All-append (λ c. (c ≢ b'?') × (c ≢ b'&')) (k ∷ key) (b'=' ∷ val)
        (All-mono IsParamChar (λ c. (c ≢ b'?') × (c ≢ b'&')) (λ c h. (h.0.0, h.0.1)) (k ∷ key) hk)
        (
          (omega arith, omega arith),
          All-mono IsValueChar (λ c. (c ≢ b'?') × (c ≢ b'&')) (λ c h. (h.0, h.1)) val hv,
        ) in
    rw (
      split_from-append b'?' [] (p ∷ path) k (key ++ b'=' ∷ val)
          (All-mono IsPathChar (λ c. c ≢ b'?') (λ c h. h.0) (p ∷ path) hp),
      split_from-none b'?' [] query
          (All-mono (λ c. (c ≢ b'?') × (c ≢ b'&')) (λ c. c ≢ b'?') (λ c h. h.0) query query_chars),
      parse_target,
      url_decode-IsPlain (p ∷ path)
          (All-mono IsPathChar (λ c. c ≢ b'%') (λ c h. h.1) (p ∷ path) hp),
      split_from-none b'&' [] query
          (All-mono (λ c. (c ≢ b'?') × (c ≢ b'&')) (λ c. c ≢ b'&') (λ c h. h.1) query query_chars),
      parse_param-keeps_sign (k ∷ key) val (record req { path = p ∷ path })
          (All-mono IsParamChar IsKeyChar (λ c h. (h.1, h.0.2)) (k ∷ key) hk)
          (All-mono IsValueChar (λ c. c ≢ b'%') (λ c h. h.2) val hv),
    )
