-- ===== src/Server.antt =====
-- src/web/server.cpp and src/include/web/server.h. A handler is a function of its continuation; what
-- the closure of `Handle` shares between calls is a `Chain`. The file system is a parameter.
pub mod Onion
pub mod Static
pub mod Running
pub mod Lifetime
mod Tests
use calabash.Base.{
  ℕ, zero, suc, ◌+◌, ◌≡◌, Bool, true, false, not, Option, none, some, List, [], ◌∷◌, ◌++◌, Bytes,
  codes, length, is_empty, get_elem?, ltb, if◌then◌else◌, Outcome, ok, fault, ◌>>=◌,
}
use calabash.Dict.{lookup, assign}
use calabash.Request.{Request}
use calabash.Response.{Response, Types, new_response, auto_file_data, auto_set_type, page_not_found}

-- What the handlers of one request work on; `types` is the global table of content types, and
-- `world` what the application's handlers share beside it.
pub record Exchange (W : Type 0) : Type 0 where
  pub req : Request
  pub resp : Response
  pub types : Types
  pub world : W

-- The indexes are one above the source's, which start at -1.
pub record Chain (W : Type 0) : Type 0 where
  pub exchange : Exchange W
  pub process_func_index : ℕ
  pub func_index : ℕ

abbrev pub ServerFunc : Type 0 → Type 0
ServerFunc W = (Chain W → Outcome (Chain W)) → Chain W → Outcome (Chain W)

pub record Server (W : Type 0) : Type 0 where
  pub static_path : Bytes
  pub handlers : List (Bytes × List (ServerFunc W))
  pub process_handles : List (ServerFunc W)

-- `std::filesystem`, and what a file stream reads.
pub record Files : Type 0 where
  pub is_regular_file : Bytes → Bool
  pub extension : Bytes → Bytes
  pub read_file : Bytes → Bytes

-- The file that answers a path, or none.
unfoldable pub static_file : Files → Bytes → Bytes → Option Bytes
static_file files static_path path =
    if is_empty static_path
    then none
    else (let asked = static_path ++ path in
        let now_path =
          if files.is_regular_file asked then asked else static_path ++ codes "/index.html" in
        if files.is_regular_file now_path then some now_path else none)

unfoldable pub file_response : Files → Option Bytes → Types → Response × Types
file_response files none types = page_not_found types new_response
file_response files (some path) types =
    auto_set_type files.extension path types (auto_file_data files.read_file path new_response)

module _ {W : Type 0} where
  abbrev pub or_none : Option (List (ServerFunc W)) → List (ServerFunc W)
  or_none none = []
  or_none (some funcs) = funcs

  unfoldable pub bind : Bytes → ServerFunc W → Server W → Server W
  bind path handler s = record s {
    handlers = assign path (or_none (lookup path s.handlers) ++ handler ∷ []) s.handlers;
  }

  unfoldable pub bind_all : Bytes → List (ServerFunc W) → Server W → Server W
  bind_all path [] s = s
  bind_all path (handler ∷ rest) s = bind_all path rest (bind path handler s)

  abbrev pub process_bind : ServerFunc W → Server W → Server W
  process_bind handler s = record s { process_handles = s.process_handles ++ handler ∷ [] }

  abbrev pub set_static_path : Bytes → Server W → Server W
  set_static_path path s = record s { static_path = path }

  -- A call of the handler at an index; an index out of range faults.
  unfoldable pub call_at :
      Option (ServerFunc W) → (Chain W → Outcome (Chain W)) → Chain W → Outcome (Chain W)
  call_at none next c = fault
  call_at (some func) next c = func next c

  -- The closure that `Handle` hands to each handler.
  unfoldable pub next_func :
      ℕ → List (ServerFunc W) → List (ServerFunc W) → Chain W → Outcome (Chain W)
  next_func zero process_handles func_list c = fault
  next_func (suc fuel) process_handles func_list c =
      let next = next_func fuel process_handles func_list in
      if ltb c.process_func_index (length process_handles)
      then call_at (get_elem? process_handles c.process_func_index) next
          (record c { process_func_index = suc c.process_func_index })
      else (if ltb c.func_index (length func_list)
          then call_at (get_elem? func_list c.func_index) next
              (record c { func_index = suc c.func_index })
          else ok c)

  unfoldable pub handle_static : Files → Server W → Request → Types → W → Exchange W
  handle_static files s req types world =
      let answer = file_response files (static_file files s.static_path req.path) types in
      record { req = req; resp = answer.0; types = answer.1; world = world }

  -- The depth of calls is at most the number of handlers and one.
  unfoldable pub handle_bound : Server W → List (ServerFunc W) → Exchange W → Outcome (Exchange W)
  handle_bound s func_list x = do
    c ←
        next_func (suc (length s.process_handles + length func_list)) s.process_handles func_list
          (record { exchange = x; process_func_index = 0; func_index = 0 })
    ok c.exchange

  unfoldable pub handle_found :
      Files → Server W → Request → Types → W → Option (List (ServerFunc W)) → Outcome (Exchange W)
  handle_found files s req types world none = ok (handle_static files s req types world)
  handle_found files s req types world (some func_list) =
      handle_bound s func_list
        (record { req = req; resp = new_response; types = types; world = world })

  unfoldable pub handle : Files → Server W → Request → Types → W → Outcome (Exchange W)
  handle files s req types world = handle_found files s req types world (lookup req.path s.handlers)
