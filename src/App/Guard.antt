-- ===== src/App/Guard.antt =====
-- What the middlewares make of a request: an exception in flight becomes its answer, and a request
-- with a valid token reaches the handler.
pub mod Refusal
use calabash.Base.{
  ◌>>=◌, ℕ, ◌≡◌, ◌≢◌, refl, sym, ap, subst, ◌∙◌, true, false, ◌&&◌, ◌⊎◌, inl, inr, some, none, List,
  [], ◌∷◌, Bytes, bytes_eq, bytes_eq_sound, codes, All, String, Outcome, ok, throw, Bool-cases,
  arith,
}
use calabash.App.{
  Did, Got, got, failed, Exception, http_exception, json_exception, std_exception, returned, raised,
  Env,
}
use calabash.App.Act.{Act, http}
use calabash.App.Business.{app_self, app_student_info, token_key}
use calabash.App.Notes.{app_leave, app_release, app_approval}
use calabash.App.Search.{app_search_leave, app_search_leave_num}
use calabash.App.Routes.{
  member, finish, error_json, code_and_msg, with_resp, World, Next, guarded, app_process_exception,
  app_token_parse, go_on, token_user, check_token, enter, reply, deliver, catch_with, catch,
  leave_try, leave_catch, ended, init, with_world,
}
use calabash.DataReader.{empty_reader}
use calabash.Dict.{lookup, assign}
use calabash.Request.{Request}
use calabash.Response.{set_header, Types, set_code, set_type, set_body_data, new_response}
use calabash.Server.{
  Exchange, Chain, ServerFunc, Server, Files, handle, handle_found, handle_bound, next_func,
  call_at, bind, bind_all,
}
use calabash.Token.{Token, parse}

abbrev pub new_server : {J D : Type 0} → Server (World J D)
new_server = record { static_path = []; handlers = []; process_handles = [] }

abbrev pub code_of : {J : Type 0} → Exception J → ℕ
code_of (http_exception e) = e.base_code
code_of (json_exception what) = 403
code_of std_exception = 300

module _ {J F D : Type 0} (env : Env J F D) where
  abbrev pub start : Request → Types → World J D → Chain (World J D)
  start req types w = record {
    exchange = record { req = req; resp = new_response; types = types; world = w };
    process_func_index = 0;
    func_index = 0;
  }

  -- The JSON that a catch clause answers with.
  abbrev pub json_of : Exception J → J
  json_of (http_exception e) = error_json env e
  json_of (json_exception what) = code_and_msg env 403 what
  json_of std_exception = code_and_msg env 300 (codes "UnKnow Error")

  -- The exchange goes on with that status, that body and that database; no file stands behind the
  -- body.
  abbrev pub Answers : ℕ → Bytes → D → Outcome (Exchange (World J D)) → Type 0
  Answers code text db o =
      (x : Exchange (World J D)) × (o ≡ ok x)
      × (x.resp.code ≡ code)
      × (x.resp.body_data ≡ text)
      × (x.world.db ≡ db)
      × (x.resp.data_reader ≡ empty_reader)

  reply-Answers :
      (code : ℕ) (j : J) (t : Bytes) (c : Chain (World J D))
      → env.json.dump j ≡ got t
      → c.exchange.world.in_flight ≡ none
      → c.exchange.resp.data_reader ≡ empty_reader
      → let d = reply env code j c in
        Answers code t c.exchange.world.db
          (leave_catch env d.exchange.world.in_flight d >>= λ e. ok e.exchange)
  unfolding reply deliver set_type set_header set_code set_body_data leave_catch
  reply-Answers code j t c dumped calm no_file =
      rw (dumped, calm) (_, refl, refl, refl, refl, no_file)

  catch_with-Answers :
      (e : Exception J) (t : Bytes) (c : Chain (World J D))
      → env.json.dump (json_of e) ≡ got t
      → c.exchange.world.in_flight ≡ none
      → c.exchange.resp.data_reader ≡ empty_reader
      → let d = catch_with env e c in
        Answers
          (code_of e)
          t
          c.exchange.world.db
          (leave_catch env d.exchange.world.in_flight d >>= λ e. ok e.exchange)
  unfolding catch_with
  catch_with-Answers (http_exception e) t c dumped calm no_file =
      reply-Answers e.base_code (error_json env e) t c dumped calm no_file
  catch_with-Answers (json_exception what) t c dumped calm no_file =
      reply-Answers 403 (code_and_msg env 403 what) t c dumped calm no_file
  catch_with-Answers std_exception t c dumped calm no_file =
      reply-Answers 300 (code_and_msg env 300 (codes "UnKnow Error")) t c dumped calm no_file

  -- An exception in flight at the end of the chain becomes its answer, where that can be dumped.
  pub caught-Answers :
      (e : Exception J) (t : Bytes) (c : Chain (World J D))
      → env.json.dump (json_of e) ≡ got t
      → c.exchange.world.in_flight ≡ some e
      → c.exchange.resp.data_reader ≡ empty_reader
      → Answers (code_of e) t c.exchange.world.db (ended env (ok c) >>= λ d. ok d.exchange)
  unfolding ended leave_try catch
  caught-Answers e t c dumped flies no_file =
      let d = with_world env (record c.exchange.world { in_flight = none }) c in
      rw flies (catch_with-Answers e t d dumped refl no_file)

  -- What a protected route makes of a request, up to the handler.
  module _ (func : J → Act J D Unit) (req : Request) (types : Types) (w : World J D) where
    abbrev pub served : Outcome (Exchange (World J D))
    served =
        handle_bound (record new_server { process_handles = app_process_exception env ∷ [] })
          (guarded env func) (start req types w).exchange

    abbrev next_of : ℕ → Next J D
    next_of n = next_func n (app_process_exception env ∷ []) (guarded env func)

    abbrev pub at : ℕ → World J D → Chain (World J D)
    at n v = record {
      exchange = record { req = req; resp = new_response; types = types; world = v };
      process_func_index = 1;
      func_index = n;
    }

  pub handle-guarded :
      (files : Files) (s : Server (World J D)) (func : J → Act J D Unit) (req : Request)
      (types : Types) (w : World J D)
      → lookup req.path s.handlers ≡ some (guarded env func)
      → s.process_handles ≡ app_process_exception env ∷ []
      → handle files s req types w ≡ served func req types w
  unfolding handle handle_found handle_bound
  handle-guarded files s func req types w bound processes = rw (bound, processes) refl

  -- The answer's status and JSON once the handler is through.
  abbrev pub answer_code : Did J Unit → ℕ
  answer_code (returned u) = 200
  answer_code (raised e) = code_of e

  abbrev pub answer_json : Did J Unit → J
  answer_json (returned u) = code_and_msg env 200 (codes "ok")
  answer_json (raised e) = json_of e

  returned-Answers :
      (c : Chain (World J D)) (t : Bytes)
      → c.exchange.world.in_flight ≡ none
      → c.exchange.resp.data_reader ≡ empty_reader
      → env.json.dump (code_and_msg env 200 (codes "ok")) ≡ got t
      → Answers 200 t c.exchange.world.db (ended env (ok c) >>= λ d. ok d.exchange)
  unfolding ended leave_try catch leave_catch reply deliver set_type set_header set_code
      set_body_data
  returned-Answers c t flies no_file dumped =
      rw (flies, dumped) (_, refl, refl, refl, refl, no_file)

  finish-Answers :
      (x : Did J Unit) (d : D) (c : Chain (World J D)) (t : Bytes)
      → c.exchange.world.in_flight ≡ none
      → c.exchange.resp.data_reader ≡ empty_reader
      → env.json.dump (answer_json x) ≡ got t
      → Answers (answer_code x) t d ((ended env (finish env (ok (x, d)) c)) >>= λ e. ok e.exchange)
  unfolding finish
  finish-Answers (returned u) d c t calm no_file dumped =
      returned-Answers (with_world env (record c.exchange.world { db = d }) c) t calm no_file dumped
  finish-Answers (raised e) d c t calm no_file dumped =
      caught-Answers e t (with_world env (record c.exchange.world { db = d; in_flight = some e }) c)
        dumped refl no_file

  -- What a valid request brings: its JSON, and a token that holds.
  pub record Valid (req : Request) (w : World J D) : Type 0 where
    pub body : J
    pub value : J
    pub text : Bytes
    pub token : Token
    pub entered : enter env req w.body_json w.db ≡ ok (returned body, w.db)
    pub found : env.json.find (codes "token") body ≡ some value
    pub is_text : env.json.get_text value ≡ got text
    pub parsed : parse env.calendar env.beyond env.now text token_key ≡ ok token
    pub useful : token.is_useful ≡ true
    pub in_time : token.is_in_time ≡ true

  -- The JSON that the handler sees.
  abbrev pub with_user : Token → J → J
  with_user token body = env.json.put (codes "user") (env.json.text token.user_id) body

  -- On a path that is bound to a guarded handler, in a server whose only middleware is the one
  -- for exceptions, with no exception in flight, a request with a valid token is handled by that
  -- handler, which sees the user of the token. If the JSON library can write the answer that the
  -- handler throws, or the plain one where it returns, then that text is the body of the response,
  -- whose status and database are those that the handler leaves, and no file is sent.
  pub handle-Valid :
      (files : Files) (s : Server (World J D)) (func : J → Act J D Unit) (req : Request)
      (types : Types) (w : World J D) (v : Valid req w) (t : Bytes) (x : Did J Unit) (d : D)
      → lookup req.path s.handlers ≡ some (guarded env func)
      → s.process_handles ≡ app_process_exception env ∷ []
      → w.in_flight ≡ none
      → func (with_user v.token v.body) w.db ≡ ok (x, d)
      → env.json.dump (answer_json x) ≡ got t
      → Answers (answer_code x) t d (handle files s req types w)
  unfolding handle_bound next_func call_at app_process_exception app_token_parse go_on token_user
      check_token member
  handle-Valid files s func req types w v t x d bound processes calm done dumped =
      rw (handle-guarded files s func req types w bound processes) (
        rw (v.entered, v.found, v.is_text, v.parsed, v.useful, v.in_time, done)
          (finish-Answers x d
            (at func req types w 2 (record w { body_json = with_user v.token v.body })) t calm refl
            dumped))
