-- ===== src/App/Guard/Refusal.antt =====
-- The requests that the application refuses before a handler runs.
use calabash.Base.{
  ◌≡◌, ◌≢◌, refl, sym, ap, subst, ◌∙◌, true, false, ◌⊎◌, inl, inr, some, none, List, [], ◌∷◌, Bytes,
  bytes_eq, bytes_eq_sound, codes, All, ok, Bool-cases, arith,
}
use calabash.App.{got, failed, Exception, json_exception, returned, raised, Env}
use calabash.App.Act.{Act, http}
use calabash.App.Business.{app_self, app_student_info, token_key}
use calabash.App.Notes.{app_leave, app_release, app_approval}
use calabash.App.Search.{app_search_leave, app_search_leave_num}
use calabash.App.Routes.{
  World, guarded, app_process_exception, app_token_parse, go_on, token_user, check_token, enter,
  init,
}
use calabash.Dict.{lookup, assign}
use calabash.Request.{Request}
use calabash.Response.{Types}
use calabash.Server.{ServerFunc, Files, handle, handle_bound, next_func, call_at, bind, bind_all}
use calabash.Token.{Token, parse}
use calabash.App.Guard.{
  Answers, json_of, code_of, caught-Answers, new_server, served, at, handle-guarded,
}

module _ {V : Type 0} (P : Bytes → V → Type 0) where
  lookup-All :
      (k : Bytes) (v : V) (m : List (Bytes × V))
      → All (λ e. P e.0 e.1) m
      → lookup k m ≡ some v
      → P k v
  unfolding lookup
  lookup-All k v [] h e = absurd (cc)
  lookup-All k v ((j, w) ∷ m) (p, h) e = elim (Bool-cases (bytes_eq j k)) [
    | inl same ↦ rw (sym (bytes_eq_sound j k same)) (subst (P j) (ground (arith, e, same)) p)
    | inr differs ↦ lookup-All k v m h (ground (arith, e, differs))
  ]

module _ {J F D : Type 0} (env : Env J F D) where
  -- The requests that a protected route refuses, with what is thrown for the reason.
  pub data Refused (req : Request) (w : World J D) : Exception J → Type 0 where
    not_post :
        bytes_eq req.method (codes "POST") ≡ false
        → Refused req w (http env.json 405 (codes "Method Not Allowed, you must use POST method"))
    not_json :
        (what : Bytes)
        → bytes_eq req.method (codes "POST") ≡ true
        → req.is_json ≡ true
        → env.json.parse req.body ≡ failed what
        → Refused req w (json_exception what)
    no_token :
        (j : J)
        → enter env req w.body_json w.db ≡ ok (returned j, w.db)
        → env.json.find (codes "token") j ≡ none
        → Refused req w (http env.json 403 (codes "Unauthorized, not found token"))
    not_text :
        (j v : J) (what : Bytes)
        → enter env req w.body_json w.db ≡ ok (returned j, w.db)
        → env.json.find (codes "token") j ≡ some v
        → env.json.get_text v ≡ failed what
        → Refused req w (json_exception what)
    useless :
        (j v : J) (text : Bytes) (token : Token)
        → enter env req w.body_json w.db ≡ ok (returned j, w.db)
        → env.json.find (codes "token") j ≡ some v
        → env.json.get_text v ≡ got text
        → parse env.calendar env.beyond env.now text token_key ≡ ok token
        → token.is_useful ≡ false
        → Refused req w (http env.json 403 (codes "Unauthorized, token error"))
    expired :
        (j v : J) (text : Bytes) (token : Token)
        → enter env req w.body_json w.db ≡ ok (returned j, w.db)
        → env.json.find (codes "token") j ≡ some v
        → env.json.get_text v ≡ got text
        → parse env.calendar env.beyond env.now text token_key ≡ ok token
        → token.is_useful ≡ true
        → token.is_in_time ≡ false
        → Refused req w (http env.json 403 (codes "Unauthorized, Login expired"))

  module _ (func : J → Act J D Unit) (req : Request) (types : Types) (w : World J D) where
    served-raised :
        (e : Exception J) (d : D) (t : Bytes)
        → env.json.dump (json_of env e) ≡ got t
        → enter env req w.body_json w.db ≡ ok (raised e, d)
        → Answers env (code_of e) t d (served env func req types w)
    unfolding handle_bound next_func call_at app_process_exception go_on
    served-raised e d t dumped stops = rw stops (
        caught-Answers env e t (at env func req types w 0 (record w { db = d; in_flight = some e }))
          dumped refl refl)

    served-token_raised :
        (e : Exception J) (j : J) (t : Bytes)
        → env.json.dump (json_of env e) ≡ got t
        → enter env req w.body_json w.db ≡ ok (returned j, w.db)
        → token_user env (env.json.find (codes "token") j) j w.db ≡ ok (raised e, w.db)
        → Answers env (code_of e) t w.db (served env func req types w)
    unfolding handle_bound next_func call_at app_process_exception app_token_parse go_on
    served-token_raised e j t dumped entered stops =
        rw (entered, stops)
          (caught-Answers env e t
            (at env func req types w 1 (record w { body_json = j; in_flight = some e })) dumped refl
            refl)

    served-Refused :
        {e : Exception J} (t : Bytes)
        → Refused req w e
        → env.json.dump (json_of env e) ≡ got t
        → Answers env (code_of e) t w.db (served env func req types w)
    unfolding enter token_user check_token
    served-Refused {e} t (not_post wrong) dumped = served-raised e w.db t dumped (rw wrong refl)
    served-Refused {e} t (not_json what post is_json bad) dumped =
        served-raised e w.db t dumped (rw (post, is_json, bad) refl)
    served-Refused {e} t (no_token j entered lost) dumped =
        served-token_raised e j t dumped entered (rw lost refl)
    served-Refused {e} t (not_text j v what entered found bad) dumped =
        served-token_raised e j t dumped entered (rw (found, bad) refl)
    served-Refused {e} t (useless j v text token entered found is_text parsed bad) dumped =
        served-token_raised e j t dumped entered (rw (found, is_text, parsed, bad) refl)
    served-Refused {e} t (expired j v text token entered found is_text parsed useful late) dumped =
        served-token_raised e j t dumped entered (rw (found, is_text, parsed, useful, late) refl)

  -- Every route of `Init` but the login is guarded.
  abbrev Route : Bytes → List (ServerFunc (World J D)) → Type 0
  Route path fs = (path ≡ codes "/login") ⊎ ((func : J → Act J D Unit) × (fs ≡ guarded env func))

  abbrev routed : (func : J → Act J D Unit) {path : Bytes} → Route path (guarded env func)
  routed func = inr (func, refl)

  init-All : All (λ e. Route e.0 e.1) (init env new_server).handlers
  unfolding init bind_all bind assign lookup
  init-All = (
    inl refl,
    (
      routed (app_self env),
      (
        routed (app_leave env),
        (
          routed (app_release env),
          (
            routed (app_student_info env),
            (
              routed (app_search_leave env),
              (routed (app_search_leave_num env), (routed (app_approval env), tt)),
            ),
          ),
        ),
      ),
    ),
  )

  init-process_handles : (init env new_server).process_handles ≡ app_process_exception env ∷ []
  unfolding init bind_all bind
  init-process_handles = refl

  -- A request for a bound path other than the login that is refused gets the status of what is thrown
  -- for its reason, 405 for another method than POST, 403 for a body or a token's value that JSON does
  -- not accept, for a missing token and for one that is not useful or has expired. If the JSON library
  -- can write the answer with the reason, that text is the body, and no file is sent; the database is
  -- as it was.
  pub handle-Refused :
      (files : Files) (req : Request) (types : Types) (w : World J D)
      (fs : List (ServerFunc (World J D))) (e : Exception J) (t : Bytes)
      → lookup req.path (init env new_server).handlers ≡ some fs
      → req.path ≢ codes "/login"
      → Refused req w e
      → env.json.dump (json_of env e) ≡ got t
      → Answers env (code_of e) t w.db (handle files (init env new_server) req types w)
  handle-Refused files req types w fs e t bound other_path refused dumped =
      elim (lookup-All Route req.path fs (init env new_server).handlers init-All bound) [
        | inl login ↦ absurd (other_path login)
        | inr (func, is_guarded) ↦
            rw
              (handle-guarded env files (init env new_server) func req types w
                (bound ∙ ap some is_guarded) init-process_handles)
              (served-Refused func req types w t refused dumped)
      ]
