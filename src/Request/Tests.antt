-- ===== src/Request/Tests.antt =====
-- Runs of the parser, and the theorems at concrete inputs.
use calabash.Base.{fault, arith, ◌≡◌, refl, [], ◌∷◌, ◌++◌, Bytes, codes, ok, true}
use calabash.Dict.{lookup, emplace}
use calabash.Url.{url_decode}
use calabash.Request.Head.{parse_http_header-no_headers, IsWord, word, request_text}
use calabash.Request.Headers.{Header, IsHeader, emplace_all}
use calabash.Request.Whole.{finished, parse-request_text}
use calabash.Request.{
  test_content_type_json, parse_headers, parse_header_line, pop_back, parse_target, load_body,
  mark_json, header, test_content_type_multipart, empty_request, parse, parse_http_header,
}
use calabash.Words.{get_next_word, get_next_line}

abbrev login : Bytes
login =
    codes "POST /login?a=1 HTTP/1.1"
    ++ 13 ∷ 10 ∷ codes "Host: x"
    ++ 13 ∷ 10 ∷ codes "Content-Type: application/json"
    ++ 13 ∷ 10 ∷ 13 ∷ 10 ∷ codes "{}"

login_parsed :
    parse (λ s. 4) [] (codes "10.0.0.1") (login ∷ codes "ab" ∷ codes "z" ∷ []) empty_request
    ≡ ok (record {
      result = true;
      req = record {
        is_json = true;
        method = codes "POST";
        url = [];
        version = codes "HTTP/1.1";
        path = codes "/login";
        body = codes "{}ab";
        body_size = 4;
        from_ip = codes "10.0.0.1";
        params = (codes "a", codes "=1") ∷ [];
        headers = (codes "Host", codes "x") ∷ (codes "Content-Type", codes "application/json") ∷ [];
        cookies = [];
      };
      chunks = codes "z" ∷ [];
    })
unfolding parse parse_http_header parse_headers parse_header_line get_next_word get_next_line
    pop_back parse_target load_body mark_json header test_content_type_multipart
    test_content_type_json url_decode lookup emplace
login_parsed = refl

abbrev pub host : Header
host = record { name_head = 72; name_tail = []; value_head = 120; value_tail = [] }

pub host-IsHeader : IsHeader host
host-IsHeader = record {
  name_chars = (refl, tt);
  value_first = refl;
  value_chars = ((ground arith, ground arith), tt);
}

pub get-IsWord : IsWord (codes "GET")
get-IsWord = word 71 (codes "ET") (refl, (refl, (refl, tt)))

pub slash-IsWord : IsWord (codes "/")
slash-IsWord = word 47 [] (refl, tt)

pub version-IsWord : IsWord (codes "H")
version-IsWord = word 72 [] (refl, tt)

parse-request_text_example :
    parse
      (λ s. 3)
      []
      (codes "ip")
      (request_text (codes "GET") (codes "/") (codes "H") (host ∷ []) (codes "ab") ∷ codes "c" ∷ [])
      empty_request
    ≡ ok (record {
      result = true;
      req =
          finished
            (record empty_request {
              method = codes "GET";
              path = codes "/";
              version = codes "H";
              headers = emplace_all (host ∷ []) [];
            })
            (codes "ip")
            3
            (codes "abc");
      chunks = [];
    })
unfolding parse_target url_decode header lookup emplace test_content_type_multipart
parse-request_text_example =
    parse-request_text (λ s. 3) [] (codes "ip") (codes "GET") (codes "/") (codes "H") (codes "ab")
      host [] (codes "c" ∷ []) empty_request
      (record empty_request {
        method = codes "GET";
        path = codes "/";
        version = codes "H";
        headers = emplace_all (host ∷ []) [];
      })
      get-IsWord slash-IsWord version-IsWord (host-IsHeader, tt) refl refl refl (refl, tt)

parse_http_header-no_headers_example :
    parse_http_header
      (request_text (codes "GET") (codes "/") (codes "H") [] (codes "ab"))
      empty_request
    ≡ fault
parse_http_header-no_headers_example =
    parse_http_header-no_headers (codes "GET") (codes "/") (codes "H") (codes "ab") empty_request
      get-IsWord slash-IsWord version-IsWord
      ((ground arith, ground arith), ((ground arith, ground arith), tt))
