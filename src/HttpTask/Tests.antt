-- ===== src/HttpTask/Tests.antt =====
-- A request for a path that nothing is bound to, in two chunks.
use calabash.Base.{false, ◌≡◌, refl, [], ◌∷◌, codes, length, ok}
use calabash.Dict.{lookup, emplace}
use calabash.HttpTask.{Peer, http_task}
use calabash.HttpTask.Answer.{http_task-answers, answered}
use calabash.Request.{Request, empty_request, parse_target, header, test_content_type_multipart}
use calabash.Request.Head.{request_text}
use calabash.Request.Headers.{emplace_all}
use calabash.Request.Tests.{host, host-IsHeader, get-IsWord, slash-IsWord, version-IsWord}
use calabash.Request.Whole.{finished}
use calabash.Response.Tests.{whole, whole-Accepts, length-Available}
use calabash.Response.{set_type, set_header, set_code, set_body_data, page_not_found}
use calabash.Server.{Server, Files, handle, handle_found, handle_static, static_file, file_response}
use calabash.Url.{url_decode}

abbrev peer : Peer
peer = record {
  strtol = λ s. 3;
  stale = [];
  ip = codes "ip";
  chunks =
      request_text (codes "GET") (codes "/") (codes "H") (host ∷ []) (codes "ab") ∷ codes "c" ∷ [];
  send = whole;
  readsome = length;
  show = λ n. [];
}

abbrev files : Files
files = record { is_regular_file = λ p. false; extension = λ p. []; read_file = λ p. [] }

abbrev bare_server : Server Unit
bare_server = record { static_path = []; handlers = []; process_handles = [] }

abbrev read : Request
read = record empty_request {
  method = codes "GET";
  path = codes "/";
  version = codes "H";
  headers = emplace_all (host ∷ []) [];
}

http_task-answers_example :
    http_task peer files bare_server [] tt
    ≡ ok (
        answered peer files bare_server whole-Accepts length-Available
          (handle_static files bare_server (finished read (codes "ip") 3 (codes "abc")) [] tt))
unfolding parse_target url_decode header lookup emplace test_content_type_multipart handle
    handle_found handle_static static_file file_response page_not_found set_type set_header set_code
    set_body_data
http_task-answers_example =
    http_task-answers peer files bare_server whole-Accepts length-Available (codes "GET")
      (codes "/") (codes "H") (codes "ab") host [] (codes "c" ∷ []) read [] tt
      (handle_static files bare_server (finished read (codes "ip") 3 (codes "abc")) [] tt)
      get-IsWord slash-IsWord version-IsWord (host-IsHeader, tt) refl refl refl (refl, tt) refl refl
      refl
