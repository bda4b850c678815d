-- ===== src/App/Login.antt =====
-- `app_login` and `app_token_parse`: the token that a login hands out is let through.
use calabash.Base.{
  sym, ℕ, ◌+◌, ◌*◌, ◌<◌, ◌≡◌, refl, true, some, [], ◌∷◌, Bytes, codes, All, Outcome, ok, leb,
  if◌then◌else◌, Bool-cases, inl, inr, arith,
}
use calabash.App.{got, Did, returned, raised, Env}
use calabash.App.Act.{
  http, http_body, test_json_param, lost_params, lost_one, get_text_at, index_found, only_row,
}
use calabash.App.Business.{token_key, is_teacher, app_login, check_password}
use calabash.App.Routes.{token_user, check_token}
use calabash.Sqlite3.{Sqlite3Data, text_value}
use calabash.Token.{issue, to_time_t, from_time_t, parse, encode, ticks_per_second}
use calabash.Token.RoundTrip.{IsPlain, read_back, parse-encode, NoBar}

module _ {J F D : Type 0} (env : Env J F D) (clean : (w i : ℕ) → env.beyond w i ≡ []) where
  abbrev pub password_query : Bytes → Bytes
  password_query user =
      if is_teacher user then codes "teacher_password" else codes "student_password"

  -- The second to which a token that is issued now lasts.
  abbrev pub last_second : ℕ
  last_second = from_time_t (to_time_t (env.now + 24 * 3600 * ticks_per_second))

  -- What a guarded route makes of a token's value in the request's JSON.
  abbrev pub let_through : ℕ → Bytes → J → D → Outcome (Did J J × D)
  let_through clock user j d =
      if leb clock last_second
      then ok (returned (env.json.put (codes "user") (env.json.text user) j), d)
      else ok (raised (http env.json 403 (codes "Unauthorized, Login expired")), d)

  app_login-token :
      (body p u : J) (user : Bytes) (cell : Sqlite3Data F) (d after : D) (t : Bytes)
      → env.json.find (codes "user") body ≡ some u
      → env.json.get_text u ≡ got user
      → env.json.find (codes "password") body ≡ some p
      → env.call (password_query user) (text_value user ∷ []) d ≡ ok ((cell ∷ []) ∷ [], after)
      → env.json.same (env.json.text cell.text_data) p ≡ true
      → encode env.calendar env.beyond
          (issue env.calendar env.beyond user (24 * 3600) env.now env.later)
          token_key
        ≡ ok t
      → app_login env body d
        ≡ ok (
          raised (http_body env.json (env.json.object ((codes "token", env.json.text t) ∷ []))),
          after,
        )
  unfolding app_login check_password test_json_param lost_params lost_one get_text_at index_found
      only_row
  app_login-token body p u user cell d after t has_user is_text has_password stored same encoded =
      rw (has_user, has_password, is_text, stored, same, is_text, encoded) refl

  -- The key is ASCII, so that a token comes back.
  pub token_back :
      (user : Bytes)
      → NoBar user
      → All (λ c. c < 128) user
      → IsPlain env.calendar (to_time_t (env.now + 24 * 3600 * ticks_per_second))
      → (clock : ℕ)
      → let token = issue env.calendar env.beyond user (24 * 3600) env.now env.later in
        (t : Bytes) × (encode env.calendar env.beyond token token_key ≡ ok t)
        × (parse env.calendar env.beyond clock t token_key ≡ ok (read_back clock token))
  token_back user bar plain standard clock =
      parse-encode env.calendar env.beyond clean clock
        (issue env.calendar env.beyond user (24 * 3600) env.now env.later) 99
        (codes "alabash_token_password") refl bar plain (omega arith) standard

  token_user-back :
      (user t : Bytes)
      → NoBar user
      → All (λ c. c < 128) user
      → IsPlain env.calendar (to_time_t (env.now + 24 * 3600 * ticks_per_second))
      → encode env.calendar env.beyond
          (issue env.calendar env.beyond user (24 * 3600) env.now env.later)
          token_key
        ≡ ok t
      → (clock : ℕ) (j v : J) (e : D) → env.json.get_text v ≡ got t
      → token_user (record env { now = clock }) (some v) j e ≡ let_through clock user j e
  unfolding token_user check_token
  token_user-back user t bar plain standard encoded clock j v e is_token =
      let (t', encoded', back) = token_back user bar plain standard clock in
      let same : t' ≡ t = cc in
      let parsed : parse env.calendar env.beyond clock t token_key
          ≡ ok
              (read_back clock (issue env.calendar env.beyond user (24 * 3600) env.now env.later)) =
        rw (sym same) back in
      rw (is_token, parsed)
        (elim (Bool-cases (leb clock last_second)) [
          | inl on ↦ rw on refl
          | inr late ↦ rw late refl
        ])

  -- Where nothing stands behind the digest's unterminated characters, and where the end of the 24 hours
  -- is in standard time and a year of at most four digits, a user whose name is ASCII without a bar and
  -- whose password is the one row that is stored logs in: the answer is a token, and a guarded route that
  -- gets it back puts the same user into the request, until the last whole second of the 24 hours;
  -- afterwards it answers 403.
  pub app_login-token_user :
      (body p u : J) (user : Bytes) (cell : Sqlite3Data F) (d after : D)
      → env.json.find (codes "user") body ≡ some u
      → env.json.get_text u ≡ got user
      → env.json.find (codes "password") body ≡ some p
      → env.call (password_query user) (text_value user ∷ []) d ≡ ok ((cell ∷ []) ∷ [], after)
      → env.json.same (env.json.text cell.text_data) p ≡ true
      → NoBar user
      → All (λ c. c < 128) user
      → IsPlain env.calendar (to_time_t (env.now + 24 * 3600 * ticks_per_second))
      → (t : Bytes) × (app_login env body d
          ≡ ok (
            raised (http_body env.json (env.json.object ((codes "token", env.json.text t) ∷ []))),
            after,
          ))
        × ((clock : ℕ) (j v : J) (e : D)
            → env.json.get_text v ≡ got t
            → token_user (record env { now = clock }) (some v) j e ≡ let_through clock user j e)
  app_login-token_user body p u user cell d after has_user is_text has_password stored same bar
        plain standard =
      let (t, encoded, back) = token_back user bar plain standard 0 in
      (
        t,
        app_login-token body p u user cell d after t has_user is_text has_password stored same
            encoded,
        token_user-back user t bar plain standard encoded,
      )
