-- ===== src/App/Act.antt =====
-- A piece of a handler: it works on the database and returns or throws; a throw keeps what was done
-- to the database. The constructors of `HttpException`, and `TestJsonParam`.
use calabash.Base.{
  ℕ, List, [], ◌∷◌, ◌++◌, Bytes, codes, Option, some, none, drop, is_empty, if◌then◌else◌, Outcome,
  ok, throw, fault, or_fault, ℤ, get_elem?, Bool,
}
use calabash.App.{
  Got, got, failed, JsonLib, Exception, http_exception, json_exception, std_exception, Did,
  returned, raised, Env,
}
use calabash.Sqlite3.{Value, Rows, Sqlite3Data}

abbrev pub Act : Type 0 → Type 0 → Type 0 → Type 0
Act J D A = D → Outcome (Did J A × D)

module _ {J D A B : Type 0} where
  -- What follows a piece that returned.
  abbrev pub and_then : Outcome (Did J A × D) → (A → Act J D B) → Outcome (Did J B × D)
  and_then fault k = fault
  and_then (throw message) k = throw message
  and_then (ok (returned a, d)) k = k a d
  and_then (ok (raised e, d)) k = ok (raised e, d)

  infixl 5 ◌>>=◌
  abbrev pub ◌>>=◌ : Act J D A → (A → Act J D B) → Act J D B
  m >>= k = λ d. and_then (m d) k

module _ {J D A : Type 0} where
  abbrev pub return : A → Act J D A
  return a d = ok (returned a, d)

  abbrev pub raise : Exception J → Act J D A
  raise e d = ok (raised e, d)

  -- A call of another part of the framework.
  abbrev pub lift : Outcome A → Act J D A
  lift fault d = fault
  lift (throw message) d = ok (raised std_exception, d)
  lift (ok a) d = ok (returned a, d)

  -- A call of the JSON library.
  abbrev pub from_json : Got A → Act J D A
  from_json (got a) d = ok (returned a, d)
  from_json (failed what) d = ok (raised (json_exception what), d)

module _ {J F : Type 0} (json : JsonLib J F) where
  abbrev pub http_full : ℕ → ℕ → Bytes → J → Exception J
  http_full base_code code msg body =
      http_exception (record { base_code = base_code; code = code; msg = msg; body = body })

  -- `HttpException(base_code, code, msg)`.
  abbrev pub http_code : ℕ → ℕ → Bytes → Exception J
  http_code base_code code msg = http_full base_code code msg (json.object [])

  -- `HttpException(base_code, msg)`.
  abbrev pub http : ℕ → Bytes → Exception J
  http base_code msg = http_code base_code base_code msg

  -- `HttpException(body)`, by which a handler answers.
  abbrev pub http_body : J → Exception J
  http_body body = http_full 200 200 (codes "ok") body

  -- `operator[]` on a constant value: a missing key is undefined behaviour, and a value that is no
  -- object has no keys.
  unfoldable pub index_found : {D : Type 0} → Option J → J → Act J D J
  index_found (some v) j d = ok (returned v, d)
  index_found none j d =
      if json.is_object j then fault else ok (raised (json_exception (json.index_error j)), d)

  abbrev pub index : {D : Type 0} → Bytes → J → Act J D J
  index k j = index_found (json.find k j) j

  unfoldable pub get_text_at : {D : Type 0} → Bytes → J → Act J D Bytes
  unfolding index_found
  get_text_at k j = do v ← index k j; from_json (json.get_text v)

  unfoldable pub get_bool_at : {D : Type 0} → Bytes → J → Act J D Bool
  unfolding index_found
  get_bool_at k j = do v ← index k j; from_json (json.get_bool v)

  -- `static_cast<int>(j[k].get<double>())`.
  unfoldable pub get_int_at : {D : Type 0} → Bytes → J → Act J D ℤ
  unfolding index_found
  get_int_at k j = do
    v ← index k j
    x ← from_json (json.get_double v)
    lift (or_fault (json.to_int x))

  -- The names that are not found, each behind a comma.
  unfoldable pub lost_one : Option J → Bytes → Bytes
  lost_one none str = codes ", " ++ str
  lost_one (some v) str = []

  unfoldable pub lost_params : List Bytes → J → Bytes
  unfolding lost_one
  lost_params [] j = []
  lost_params (str ∷ params) j = lost_one (json.find str j) str ++ lost_params params j

  unfoldable pub test_json_param : {D : Type 0} → List Bytes → J → Act J D Unit
  unfolding lost_params
  test_json_param params j =
      let lost : Bytes = lost_params params j in
      if is_empty lost then return tt else raise (http 403 (codes "Lost param : " ++ drop 2 lost))

  -- `if (db_res.size() != 1) throw e;`, then `db_res[0]`.
  unfoldable pub only_row :
      {F' D : Type 0} → Exception J → Rows F' → Act J D (List (Sqlite3Data F'))
  only_row e [] = raise e
  only_row e (row ∷ []) = return row
  only_row e (row ∷ second ∷ rows) = raise e

-- `row[i]`.
abbrev pub column : {J F D : Type 0} → ℕ → List (Sqlite3Data F) → Act J D (Sqlite3Data F)
column i row = lift (or_fault (get_elem? row i))

abbrev pub queried : {J F D : Type 0} → Outcome (Rows F × D) → Outcome (Did J (Rows F) × D)
queried fault = fault
queried (throw message) = throw message
queried (ok (rows, d)) = ok (returned rows, d)

-- `db_->CallCompiledSQL(name, arg...)`.
abbrev pub query : {J F D : Type 0} → Env J F D → Bytes → List (Value F) → Act J D (Rows F)
query env name arg d = queried (env.call name arg d)
