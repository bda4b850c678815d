-- ===== src/App/Tests/OnWire.antt =====
-- The application's answers over the wire.
use calabash.Base.{◌≡◌, refl, false, [], ◌∷◌, Bytes, codes, length, ok, arith, ℤ}
use calabash.App.{raised}
use calabash.App.Act.{http, http_body, index_found, get_text_at}
use calabash.App.Business.{app_self}
use calabash.App.Guard.{Valid, new_server}
use calabash.App.Guard.Refusal.{no_token}
use calabash.App.Routes.{guarded, init, enter}
use calabash.App.Search.{app_search_leave_num, find_leaves, or_mentor}
use calabash.App.Wire.{Posts, arrived, Wired, http_task-Valid, http_task-Refused}
use calabash.App.Tests.Library.{no_fields, json_lib, number_json, text_json}
use calabash.App.Tests.Table.{env}
use calabash.App.Tests.{files, first_world, token_world, token_body, login_token, issued}
use calabash.Dict.{lookup, assign, emplace}
use calabash.HttpTask.{Peer, http_task}
use calabash.Request.{
  Request, empty_request, parse_target, header, test_content_type_multipart, test_content_type_json,
}
use calabash.Request.Head.{IsWord, word, request_text}
use calabash.Request.Headers.{emplace_all}
use calabash.Request.Tests.{host, host-IsHeader, version-IsWord}
use calabash.Response.Tests.{whole, whole-Accepts, length-Available}
use calabash.Server.{bind, bind_all}
use calabash.Url.{url_decode}

-- A peer that posts an empty body to a path.
abbrev posting : Bytes → Peer
posting path = record {
  strtol = λ s. 0;
  stale = [];
  ip = codes "ip";
  chunks = request_text (codes "POST") path (codes "H") (host ∷ []) [] ∷ [];
  send = whole;
  readsome = length;
  show = λ n. [];
}

abbrev read_of : Bytes → Request
read_of path = record empty_request {
  method = codes "POST";
  path = path;
  version = codes "H";
  headers = emplace_all (host ∷ []) [];
}

self-IsWord : IsWord (codes "/self")
self-IsWord = word 47 (codes "self") (refl, (refl, (refl, (refl, (refl, tt)))))

num-IsWord : IsWord (codes "/search_leave_num")
num-IsWord = word 47 (codes "search_leave_num") (
  refl,
  (
    refl,
    (
      refl,
      (
        refl,
        (
          refl,
          (
            refl,
            (
              refl,
              (refl, (refl, (refl, (refl, (refl, (refl, (refl, (refl, (refl, (refl, tt)))))))))),
            ),
          ),
        ),
      ),
    ),
  ),
)

abbrev self_path : Bytes
self_path = codes "/self"

abbrev num_path : Bytes
num_path = codes "/search_leave_num"

-- What it posts, for a path that the parser reads as it stands.
abbrev posts :
    (path : Bytes)
    → IsWord path
    → parse_target path (read_of path) ≡ ok (read_of path)
    → test_content_type_multipart (header (read_of path) (codes "Content-Type")) ≡ false
    → Posts (posting path) (read_of path)
posts path is_word is_read plain = record {
  method = codes "POST";
  target = path;
  version = codes "H";
  first = [];
  h = host;
  hs = [];
  chunks = [];
  method-IsWord = word 80 (codes "OST") (refl, (refl, (refl, (refl, tt))));
  target-IsWord = is_word;
  version-IsWord = version-IsWord;
  headers-All = (host-IsHeader, tt);
  is_read = is_read;
  not_multipart = plain;
  sized = refl;
  not_empty = tt;
  sent = refl;
}

self-Posts : Posts (posting self_path) (read_of self_path)
unfolding parse_target url_decode header lookup emplace test_content_type_multipart
self-Posts = posts self_path self-IsWord refl refl

num-Posts : Posts (posting num_path) (read_of num_path)
unfolding parse_target url_decode header lookup emplace test_content_type_multipart
num-Posts = posts num_path num-IsWord refl refl

http_task-Refused_example :
    Wired env
      (posting self_path)
      files
      whole-Accepts
      length-Available
      403
      []
      []
      (http_task (posting self_path) files (init env new_server) [] first_world)
unfolding self-Posts init bind bind_all assign lookup enter test_content_type_json header
http_task-Refused_example =
    http_task-Refused env (posting self_path) files whole-Accepts length-Available self-Posts []
      first_world (guarded env (app_self env))
      (http json_lib 403 (codes "Unauthorized, not found token")) [] refl
      (λ e. absurd (ground arith)) (no_token no_fields refl refl) refl

valid_num : Valid env (arrived num-Posts) token_world
unfolding enter num-Posts test_content_type_json header
valid_num = record {
  body = token_body;
  value = text_json issued.0;
  text = issued.0;
  token = login_token;
  entered = refl;
  found = refl;
  is_text = refl;
  parsed = issued.2;
  useful = refl;
  in_time = refl;
}

http_task-Valid_example :
    Wired env
      (posting num_path)
      files
      whole-Accepts
      length-Available
      200
      []
      []
      (http_task (posting num_path) files (init env new_server) [] token_world)
unfolding valid_num num-Posts init bind bind_all assign lookup app_search_leave_num find_leaves
    or_mentor get_text_at index_found test_content_type_json header
http_task-Valid_example =
    http_task-Valid env (posting num_path) files whole-Accepts length-Available
      (init env new_server) (app_search_leave_num env) num-Posts [] token_world valid_num []
      (raised (http_body json_lib (json_lib.object ((codes "num", number_json (ℤ.pos 1)) ∷ [])))) []
      refl refl refl refl refl
