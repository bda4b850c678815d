-- ===== src/Response.antt =====
-- src/web/response.cpp and src/include/web/response.h. The two tables are globals; `operator[]` on the
-- table of types inserts an empty value for a missing key, so the table is passed on. A file is its
-- contents. `show` is `<<` of a number, `extension` that of `std::filesystem::path`, `read_file` what
-- a file stream reads.
pub mod Tables
pub mod Headers
pub mod Wire
pub mod Tests
use calabash.Base.{
  ℕ, ◌+◌, ◌*◌, ◌≡◌, Bool, true, false, Option, none, some, List, [], ◌∷◌, ◌++◌, Bytes, codes,
  length, ltb, ◌==◌, if◌then◌else◌,
}
use calabash.Dict.{lookup, assign}
use calabash.DataReader.{DataReader, empty_reader, set_file_stream, set_begin_data}
use calabash.Response.Tables.{http_code_with_info}

pub record Response : Type 0 where
  pub code : ℕ
  pub data_reader : DataReader
  pub body_data : Bytes
  pub headers : List (Bytes × Bytes)

abbrev pub Types : Type 0
Types = List (Bytes × Bytes)

abbrev pub new_response : Response
new_response = record { code = 200; data_reader = empty_reader; body_data = []; headers = [] }

unfoldable pub set_code : ℕ → Response → Response
set_code code r = record r { code = code }

-- The first header of that name is replaced; else the header goes to the end.
unfoldable pub set_header : Bytes → Bytes → Response → Response
set_header k v r = record r { headers = assign k v r.headers }

abbrev pub content_type : Bytes
content_type = codes "Content-Type"

-- `operator[]`: the value, and the table it leaves.
abbrev pub or_inserted : Bytes → Types → Option Bytes → Bytes × Types
or_inserted k types none = ([], assign k [] types)
or_inserted k types (some v) = (v, types)

pub type_of : Bytes → Types → Bytes × Types
type_of k types = or_inserted k types (lookup k types)

unfoldable pub set_type : Bytes → Types → Response → Response × Types
set_type type types r =
    let found = type_of type types in (set_header content_type found.0 r, found.1)

unfoldable pub set_body_data : Bytes → Response → Response
set_body_data dat r = record r { body_data = dat }

unfoldable pub body_data_stream : Bytes → Response → Response
body_data_stream contents r = record r { data_reader = set_file_stream contents r.data_reader }

abbrev pub not_found_page : Bytes
not_found_page =
    codes
      "<!DOCTYPE html><html><head><meta charset=\"utf-8\"><title>Calabash</title></head> <body><h1 style=\"text-align: center;\">404 Page Not Found</h1><p style=\"text-align: center;\">request not matched</p></body></html>"

unfoldable pub page_not_found : Types → Response → Response × Types
page_not_found types r =
    let typed = set_type (codes ".html") types (set_body_data not_found_page r) in
    (set_code 404 typed.0, typed.1)

-- A file above one megabyte is streamed.
unfoldable pub auto_file_data : (Bytes → Bytes) → Bytes → Response → Response
auto_file_data read_file path r =
    let contents = read_file path in
    if ltb (1024 * 1024) (length contents)
    then body_data_stream contents r
    else set_body_data contents r

-- The argument of the call of `SetType`.
abbrev pub type_or_stream : Option Bytes → Bytes
type_or_stream none = codes "application/octet-stream"
type_or_stream (some type) = type

unfoldable pub auto_set_type : (Bytes → Bytes) → Bytes → Types → Response → Response × Types
auto_set_type extension path types r =
    set_type (type_or_stream (lookup (extension path) types)) types r

pub code_info : ℕ → List (ℕ × Bytes) → Bytes
code_info code [] = codes " "
code_info code ((c, info) ∷ rest) = if c == code then info else code_info code rest

abbrev pub crlf : Bytes
crlf = 13 ∷ 10 ∷ []

pub header_lines : List (Bytes × Bytes) → Bytes
header_lines [] = []
header_lines ((k, v) ∷ rest) = k ++ codes ": " ++ v ++ crlf ++ header_lines rest

pub make_http_head : (ℕ → Bytes) → ℕ → Response → Bytes
make_http_head show size r =
    codes "HTTP/1.1 "
    ++ show r.code
    ++ codes " "
    ++ code_info r.code http_code_with_info
    ++ crlf
    ++ header_lines r.headers
    ++ codes "Content-Length: "
    ++ show size
    ++ crlf
    ++ crlf

pub get_data_reader : (ℕ → Bytes) → Response → DataReader
get_data_reader show r =
    set_begin_data
      (make_http_head show (length r.body_data + r.data_reader.stream_size) r ++ r.body_data)
      r.data_reader
