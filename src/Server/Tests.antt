-- ===== src/Server/Tests.antt =====
-- The theorems at a server with one process handler, one route and one file.
mod OnRunning
use calabash.Base.{◌≡◌, refl, [], ◌∷◌, Bytes, bytes_eq, codes, true, ok}
use calabash.Dict.{lookup}
use calabash.Request.{Request, empty_request}
use calabash.Response.{new_response, set_code, set_body_data}
use calabash.Server.{Server, Files, handle}
use calabash.Server.Onion.{Middleware, funcs, onion, handle-onion}

abbrev files : Files
files = record {
  is_regular_file = λ p. bytes_eq p (codes "www/a");
  extension = λ p. [];
  read_file = λ p. codes "text";
}

-- It refuses a request that is no JSON, and else sets the code after the handlers behind it.
abbrev guard : Middleware Unit
guard = record {
  before = λ x. x;
  goes_on = λ x. x.req.is_json;
  after = λ x. record x { resp = set_code 201 x.resp };
}

abbrev greet : Middleware Unit
greet = record {
  before = λ x. record x { resp = set_body_data (codes "hi") x.resp };
  goes_on = λ x. true;
  after = λ x. x;
}

abbrev server : Server Unit
server = record {
  static_path = codes "www";
  handlers = (codes "/hi", funcs (greet ∷ [])) ∷ [];
  process_handles = funcs (guard ∷ []);
}

abbrev ask : Bytes → Request
ask path = record empty_request { path = path; is_json = true }

handle-onion_example :
    handle files server (ask (codes "/hi")) [] tt
    ≡ ok (
        onion
          (guard ∷ greet ∷ [])
          (record { req = ask (codes "/hi"); resp = new_response; types = []; world = tt }))
unfolding lookup
handle-onion_example =
    handle-onion files server (ask (codes "/hi")) [] tt (guard ∷ []) (greet ∷ []) refl refl
