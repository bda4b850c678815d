-- ===== src/Request.antt =====
-- src/include/web/request.h and src/web/request.cpp, and the parser of src/web/request_maker.cpp and
-- src/include/web/request_maker.h. A pointer into a buffer is the list of bytes from it to the end
-- of the buffer's memory; a read at the end is a fault. `body_json_` is a value of the JSON library
-- that the parser does not touch, and is left out. `recv` gives the chunks of a list in turn.
pub mod Target
pub mod Headers
pub mod Head
pub mod Body
pub mod Whole
pub mod Tests
use calabash.Base.{
  String, ℕ, zero, suc, ◌+◌, ◌-◌, ◌≡◌, Bool, true, false, ◌&&◌, ◌||◌, not, Option, none, some, List,
  [], ◌∷◌, ◌++◌, Bytes, codes, length, take, drop, is_empty, ltb, leb, ◌==◌, if◌then◌else◌, Outcome,
  ok, throw, fault, ◌>>=◌,
}
use calabash.Dict.{lookup, emplace}
use calabash.Url.{url_decode}
use calabash.Words.{
  skip_space, take_word, get_next_word, get_next_line, length_error, split, is_space, split_from,
}

pub record Request : Type 0 where
  pub is_json : Bool
  pub method : Bytes
  pub url : Bytes
  pub version : Bytes
  pub path : Bytes
  pub body : Bytes
  pub body_size : ℕ
  pub from_ip : Bytes
  pub params : List (Bytes × Bytes)
  pub headers : List (Bytes × Bytes)
  pub cookies : List (Bytes × Bytes)

abbrev pub empty_request : Request
empty_request = record {
  is_json = false;
  method = [];
  url = [];
  version = [];
  path = [];
  body = [];
  body_size = 0;
  from_ip = [];
  params = [];
  headers = [];
  cookies = [];
}

abbrev pub or_empty : Option Bytes → Bytes
or_empty none = []
or_empty (some v) = v

-- `Request::header` and `Request::cookie`: the empty string if there is none.
unfoldable pub header : Request → Bytes → Bytes
header req name = or_empty (lookup name req.headers)

unfoldable pub cookie : Request → Bytes → Bytes
cookie req name = or_empty (lookup name req.cookies)

-- The text up to the first `=`; the character that ends the string is the last that may be read.
pub take_key : Bytes → Outcome Bytes
take_key [] = fault
take_key (c ∷ str) =
    let more = (do key ← take_key str; ok (c ∷ key)) in if c == b'=' then ok [] else more

-- One parameter of the query: the value is cut off at the length of the decoded key.
pub parse_param : Bytes → Request → Outcome Request
unfolding take_key
parse_param th_parm req = do
  raw_key ← take_key th_parm
  param_key ← url_decode raw_key
  param_val ← url_decode (drop (length param_key) th_parm)
  ok (record req { params = emplace param_key param_val req.params })

pub parse_params : List Bytes → Request → Outcome Request
unfolding parse_param
parse_params [] req = ok req
parse_params (th_parm ∷ rest) req = do req' ← parse_param th_parm req; parse_params rest req'

-- The part of `ParseHttpHeader` that takes the request target apart: `target` is `req->path_`.
unfoldable pub parse_target : Bytes → Request → Outcome Request
unfolding split parse_params
parse_target target req = elim (split target b'?') [
  | [] ↦ fault
  | raw_path ∷ others ↦ do
    path ← url_decode raw_path
    let req' = record req { path = path }
    elim others [
      | [] ↦ ok req'
      | query ∷ more ↦ if is_empty more then parse_params (split query b'&') req' else ok req'
    ]
]

-- `string::pop_back`.
pub pop_back : Bytes → Outcome Bytes
pop_back [] = fault
pop_back (c ∷ []) = ok []
pop_back (c ∷ d ∷ str) = do front ← pop_back (d ∷ str); ok (c ∷ front)

-- One header: the line with a `\n` behind it and the zero that ends a string.
pub parse_header_line : Bytes → Outcome (Bytes × Bytes)
parse_header_line line = do
  (key, rest) ← get_next_word (line ++ 10 ∷ 0 ∷ [])
  (val, _) ← get_next_line rest
  name ← pop_back key
  ok (name, val)

-- The loop over the header lines, up to an empty one. Each round reads a line, so that the length of
-- the memory is fuel enough; running out of it counts as a fault.
pub parse_headers : ℕ → Bytes → Request → Outcome (Request × Bytes)
parse_headers zero buf req = fault
parse_headers (suc fuel) buf req = do
  (line, rest) ← get_next_line buf
  let more = (do
    (key, val) ← parse_header_line line
    parse_headers fuel rest (record req { headers = emplace key val req.headers }))
  if is_empty line then ok (req, rest) else more

-- The request and the number of bytes that its head takes.
pub parse_http_header : Bytes → Request → Outcome (Request × ℕ)
parse_http_header mem req = do
  (method, buf1) ← get_next_word mem
  (target, buf2) ← get_next_word buf1
  (version, buf3) ← get_next_word buf2
  let start = record req { method = method; path = target; version = version }
  (read, buf) ← parse_headers (suc (length buf3)) buf3 start
  parsed ← parse_target target read
  ok (parsed, length mem - length buf)

-- `text[i] != str[i]` for each `i`; the zero that ends `str` differs from every character of `text`.
pub starts_with : Bytes → Bytes → Bool
starts_with [] str = true
starts_with (t ∷ text) [] = false
starts_with (t ∷ text) (c ∷ str) = (t == c) && starts_with text str

unfoldable pub test_content_type_multipart : Bytes → Bool
unfolding starts_with
test_content_type_multipart str = starts_with (codes "multipart") str

unfoldable pub test_content_type_json : Bytes → Bool
unfolding starts_with
test_content_type_json str = starts_with (codes "application/json") str

-- The loop that reads the rest of the body: whether it came whole, what came, and the chunks left. A
-- `recv` at the end of the list, or of an empty chunk, returns no positive size.
pub read_body : ℕ → Bytes → List Bytes → Bool × Bytes × List Bytes
read_body size body [] = (leb size (length body), body, [])
read_body size body (chunk ∷ chunks) =
    let more = read_body size (body ++ chunk) chunks in
    if leb size (length body)
    then (true, body, chunk ∷ chunks)
    else if is_empty chunk
    then (false, body, chunks)
    else more

-- What a call of `Parse` leaves: its result, the request, and the chunks that are still to come.
pub record Parsed : Type 0 where
  pub result : Bool
  pub req : Request
  pub chunks : List Bytes

-- The body of the request from the buffer behind the head and from the socket.
pub load_body : Bytes → ℕ → Request → List Bytes → Outcome Parsed
unfolding read_body
load_body first head_size req chunks =
    if ltb (length first) head_size
    then throw length_error
    else let (whole, body, rest) = read_body req.body_size (drop head_size first) chunks in
      ok (record { result = whole; req = record req { body = body }; chunks = rest })

-- `is_json_` once the request is there.
pub mark_json : Parsed → Parsed
mark_json p =
    if p.result && test_content_type_json (header p.req (codes "Content-Type"))
    then record p { req = record p.req { is_json = true } }
    else p

-- `Parse` on a socket that has `ip` and delivers `chunks`. `stale` is what the buffer held before,
-- and `strtol` the function of the C library, its result as a `size_t`. `SaveMultipartFile` is empty.
pub parse : (Bytes → ℕ) → Bytes → Bytes → List Bytes → Request → Outcome Parsed
parse strtol stale ip [] req = ok (record { result = false; req = req; chunks = [] })
parse strtol stale ip (first ∷ chunks) req =
    if is_empty first then ok (record { result = false; req = req; chunks = chunks }) else do
      (read, head_size) ← parse_http_header (first ++ drop (length first) stale) req
      let sized = record read {
        body_size = strtol (header read (codes "Content-Length"));
        from_ip = ip;
      }
      if head_size == 0
          then ok (record { result = false; req = read; chunks = chunks })
          else if test_content_type_multipart (header sized (codes "Content-Type"))
          then ok (mark_json (record { result = true; req = sized; chunks = chunks }))
          else (do p ← load_body first head_size sized chunks; ok (mark_json p))
