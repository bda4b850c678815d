-- ===== src/App/Routes.antt =====
-- The middlewares of example/app/app_business.cpp and the table of `StudentMangeServer::Init`. An
-- exception in flight is the field `in_flight` of the world: a handler that finds it set behind its
-- continuation hands it on at once.
use calabash.Base.{
  ℤ, ℕ, not, Option, some, none, List, [], ◌∷◌, Bytes, bytes_eq, codes, if◌then◌else◌, Outcome, ok,
  throw, fault, String,
}
use calabash.App.{
  Got, got, failed, HttpException, Exception, http_exception, json_exception, std_exception, Did,
  returned, raised, Env,
}
use calabash.App.Act.{Act, ◌>>=◌, return, raise, lift, from_json, http}
use calabash.App.Business.{token_key, app_login, app_self, app_student_info}
use calabash.App.Notes.{app_leave, app_release, app_approval}
use calabash.App.Search.{app_search_leave, app_search_leave_num}
use calabash.Request.{Request}
use calabash.Response.{Response, Types, set_code, set_type, set_body_data}
use calabash.Server.{Chain, ServerFunc, Server, bind_all, process_bind, set_static_path}
use calabash.Token.{Token, parse}

pub record World (J D : Type 0) : Type 0 where
  pub body_json : J
  pub db : D
  pub in_flight : Option (Exception J)

abbrev pub Next : Type 0 → Type 0 → Type 0
Next J D = Chain (World J D) → Outcome (Chain (World J D))

abbrev pub uncaught : String
uncaught = "nlohmann::json::exception"

module _ {J F D : Type 0} (env : Env J F D) where
  abbrev pub with_world : World J D → Chain (World J D) → Chain (World J D)
  with_world w c = record c { exchange = record c.exchange { world = w } }

  abbrev pub with_resp : Response → Types → Chain (World J D) → Chain (World J D)
  with_resp r types c = record c { exchange = record c.exchange { resp = r; types = types } }

  -- What a middleware does before its continuation, which gets the new JSON.
  unfoldable pub go_on :
      Next J D → Outcome (Did J J × D) → Chain (World J D) → Outcome (Chain (World J D))
  go_on next fault c = fault
  go_on next (throw message) c = throw message
  go_on next (ok (raised e, d)) c =
      ok (with_world (record c.exchange.world { db = d; in_flight = some e }) c)
  go_on next (ok (returned j, d)) c =
      next (with_world (record c.exchange.world { body_json = j; db = d }) c)

  unfoldable pub check_token : Token → J → Act J D J
  check_token token body =
      if not token.is_useful
      then raise (http env.json 403 (codes "Unauthorized, token error"))
      else if not token.is_in_time
      then raise (http env.json 403 (codes "Unauthorized, Login expired"))
      else return (env.json.put (codes "user") (env.json.text token.user_id) body)

  -- The user of the token, put into the JSON.
  unfoldable pub token_user : Option J → J → Act J D J
  unfolding check_token
  token_user none body = raise (http env.json 403 (codes "Unauthorized, not found token"))
  token_user (some found) body = do
    text ← from_json (env.json.get_text found)
    token ← lift (parse env.calendar env.beyond env.now text token_key)
    check_token token body

  unfoldable pub app_token_parse : ServerFunc (World J D)
  unfolding token_user go_on
  app_token_parse next c =
      let w : World J D = c.exchange.world in
      go_on next (token_user (env.json.find (codes "token") w.body_json) w.body_json w.db) c

  -- A handler that never calls its continuation.
  unfoldable pub finish : Outcome (Did J Unit × D) → Chain (World J D) → Outcome (Chain (World J D))
  finish fault c = fault
  finish (throw message) c = throw message
  finish (ok (raised e, d)) c =
      ok (with_world (record c.exchange.world { db = d; in_flight = some e }) c)
  finish (ok (returned u, d)) c = ok (with_world (record c.exchange.world { db = d }) c)

  unfoldable pub member : (J → Act J D Unit) → ServerFunc (World J D)
  unfolding finish
  member func next c = finish (func c.exchange.world.body_json c.exchange.world.db) c

  -- The begin of the try block.
  unfoldable pub enter : Request → J → Act J D J
  enter req body =
      if not (bytes_eq req.method (codes "POST"))
      then raise (http env.json 405 (codes "Method Not Allowed, you must use POST method"))
      else if req.is_json
      then from_json (env.json.parse req.body)
      else return body

  unfoldable pub deliver : Got Bytes → Chain (World J D) → Chain (World J D)
  deliver (got text) c = with_resp (set_body_data text c.exchange.resp) c.exchange.types c
  deliver (failed what) c =
      with_world (record c.exchange.world { in_flight = some (json_exception what) }) c

  -- `set_code`, `SetJsonType` and `BodyData`, in every branch.
  unfoldable pub reply : ℕ → J → Chain (World J D) → Chain (World J D)
  unfolding deliver
  reply code res_json c =
      let typed = set_type (codes ".json") c.exchange.types (set_code code c.exchange.resp) in
      deliver (env.json.dump res_json) (with_resp typed.0 typed.1 c)

  abbrev pub code_and_msg : ℕ → Bytes → J
  code_and_msg code msg =
      env.json.object
        ((codes "code", env.json.number (ℤ.pos code)) ∷ (codes "msg", env.json.text msg) ∷ [])

  abbrev pub error_json : HttpException J → J
  error_json e =
      env.json.put (codes "msg") (env.json.text e.msg)
        (env.json.put (codes "code") (env.json.number (ℤ.pos e.code)) e.body)

  -- The three catch clauses.
  unfoldable pub catch_with : Exception J → Chain (World J D) → Chain (World J D)
  unfolding reply
  catch_with (http_exception e) c = reply e.base_code (error_json e) c
  catch_with (json_exception what) c = reply 403 (code_and_msg 403 what) c
  catch_with std_exception c = reply 300 (code_and_msg 300 (codes "UnKnow Error")) c

  unfoldable pub catch : Option (Exception J) → Chain (World J D) → Chain (World J D)
  unfolding catch_with
  catch none c = c
  catch (some e) c = catch_with e (with_world (record c.exchange.world { in_flight = none }) c)

  -- The end of the try block, which an exception in flight skips.
  unfoldable pub leave_try : Option (Exception J) → Chain (World J D) → Chain (World J D)
  unfolding reply
  leave_try none c = reply 200 (code_and_msg 200 (codes "ok")) c
  leave_try (some e) c = c

  -- An exception that a catch clause throws leaves the middleware, and with it the server.
  unfoldable pub leave_catch :
      Option (Exception J) → Chain (World J D) → Outcome (Chain (World J D))
  leave_catch none c = ok c
  leave_catch (some e) c = throw uncaught

  unfoldable pub ended : Outcome (Chain (World J D)) → Outcome (Chain (World J D))
  unfolding leave_try catch leave_catch
  ended fault = fault
  ended (throw message) = throw message
  ended (ok c) =
      let d : Chain (World J D) = leave_try c.exchange.world.in_flight c in
      let caught : Chain (World J D) = catch d.exchange.world.in_flight d in
      leave_catch caught.exchange.world.in_flight caught

  unfoldable pub app_process_exception : ServerFunc (World J D)
  unfolding enter go_on ended
  app_process_exception next c =
      ended (go_on next (enter c.exchange.req c.exchange.world.body_json c.exchange.world.db) c)

  abbrev pub guarded : (J → Act J D Unit) → List (ServerFunc (World J D))
  guarded func = app_token_parse ∷ member func ∷ []

  -- The routes that `Init` binds.
  unfoldable pub init : Server (World J D) → Server (World J D)
  unfolding app_process_exception app_token_parse member
  init s =
      let s = set_static_path (codes "./static") s in
      let s = process_bind app_process_exception s in
      let s = bind_all (codes "/login") (member (app_login env) ∷ []) s in
      let s = bind_all (codes "/self") (guarded (app_self env)) s in
      let s = bind_all (codes "/leave") (guarded (app_leave env)) s in
      let s = bind_all (codes "/release") (guarded (app_release env)) s in
      let s = bind_all (codes "/student_info") (guarded (app_student_info env)) s in
      let s = bind_all (codes "/search_leave") (guarded (app_search_leave env)) s in
      let s = bind_all (codes "/search_leave_num") (guarded (app_search_leave_num env)) s in
      bind_all (codes "/approval") (guarded (app_approval env)) s
