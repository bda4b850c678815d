-- ===== src/Url.antt =====
-- Percent encoding: `UrlEncode`, `UrlDecode` and `UrlCodeGetHEX` of src/web/request_maker.cpp and
-- src/include/web/request_maker.h.
pub mod RoundTrip
mod Tests
use calabash.Base.{
  String, ℕ, ◌+◌, ◌*◌, ◌/◌, ◌%◌, Bool, ◌||◌, true, false, List, [], ◌∷◌, ◌++◌, Bytes, codes, get_or,
  leb, ◌==◌, if◌then◌else◌, Outcome, ok, throw, ◌>>=◌, Option, none, some, suc, zero,
}

abbrev pub num_map : Bytes
num_map = codes "0123456789ABCDEF"

-- The characters of the raw string literal R"("%<>[\]^_`{|})".
abbrev pub ascii_map : Bytes
ascii_map =
    b'"' ∷ b'%' ∷ b'<' ∷ b'>' ∷ b'[' ∷ 0x5C ∷ b']' ∷ b'^' ∷ b'_' ∷ b'`' ∷ b'{' ∷ b'|' ∷ b'}' ∷ []

-- `std::count(…) != 0`.
pub contains : Bytes → ℕ → Bool
contains [] c = false
contains (x ∷ xs) c = (x == c) || contains xs c

-- `std::find(begin, end, c) - begin`: the length of the range if `c` is not there.
unfoldable pub find_index : Bytes → ℕ → ℕ
find_index [] c = 0
find_index (x ∷ xs) c = if x == c then 0 else suc (find_index xs c)

unfoldable pub url_code_get_hex : ℕ → ℕ → ℕ
unfolding find_index
url_code_get_hex l r = (find_index num_map l * 16 + find_index num_map r) % 256

pub must_escape : ℕ → Bool
unfolding contains
must_escape c = leb 128 c || contains ascii_map c

unfoldable pub url_encode : Bytes → Bytes
unfolding must_escape
url_encode [] = []
url_encode (c ∷ url) =
    if must_escape c
    then b'%' ∷ get_or num_map (c / 16 % 16) 0 ∷ get_or num_map (c % 16) 0 ∷ url_encode url
    else c ∷ url_encode url

abbrev pub url_is_invalid : String
url_is_invalid = "url is invalid"

-- Where one character follows the `%`, the code still decodes it together with the terminating
-- zero, and then throws.
unfoldable pub url_decode : Bytes → Outcome Bytes
unfolding url_code_get_hex
url_decode [] = ok []
url_decode (c ∷ []) = if c == b'%' then throw url_is_invalid else ok (c ∷ [])
url_decode (c ∷ l ∷ []) =
    let plain = (do rest ← url_decode (l ∷ []); ok (c ∷ rest)) in
    if c == b'%' then throw url_is_invalid else plain
url_decode (c ∷ l ∷ r ∷ url) =
    let escaped = (do rest ← url_decode url; ok (url_code_get_hex l r ∷ rest)) in
    let plain = (do rest ← url_decode (l ∷ r ∷ url); ok (c ∷ rest)) in
    if c == b'%' then escaped else plain
