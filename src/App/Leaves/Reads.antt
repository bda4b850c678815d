-- ===== src/App/Leaves/Reads.antt =====
-- The pieces of the handlers that leave the database alone.
use calabash.Base.{
  [], ◌∷◌, List, Outcome, throw, fault, ◌++◌, ℕ, ℤ, Bool, true, false, ◌==◌, Option, some, none,
  Bytes, codes, is_empty, ok, or_fault, Bool-cases, inl, inr, arith, drop,
}
use calabash.App.{
  std_exception, Got, got, failed, Env, Exception, json_exception, Did, returned, raised,
}
use calabash.App.Act.{
  only_row, from_json, lift, return, http_code, Act, and_then, index_found, get_text_at, get_int_at,
  get_bool_at, test_json_param, http, lost_params,
}
use calabash.App.Notes.{decide}
use calabash.App.Leaves.Moves.{Decides, kept, decided}
use calabash.Sqlite3.{Rows, Sqlite3Data}
use calabash.Leave.{decision, pending_approval}

abbrev pub Anything : {A : Type 0} → A → Type 0
Anything a = Unit

module _ {J F D : Type 0} (env : Env J F D) where
  -- A piece that leaves the database alone; what it returns has a property.
  pub data Reads (A : Type 0) (P : A → Type 0) (d : D) : Outcome (Did J A × D) → Type 0 where
    no_read : Reads A P d fault
    stops : (e : Exception J) → Reads A P d (ok (raised e, d))
    gives : (a : A) → P a → Reads A P d (ok (returned a, d))

  pub and_then-Reads :
      {A B : Type 0} {P : A → Type 0} {Q : B → Type 0} {d : D} {o : Outcome (Did J A × D)}
      (k : A → Act J D B)
      → Reads A P d o
      → ((a : A) → P a → Reads B Q d (k a d))
      → Reads B Q d (and_then o k)
  and_then-Reads k no_read h = no_read
  and_then-Reads k (stops e) h = stops e
  and_then-Reads k (gives a p) h = h a p

  pub from_json-Reads : {A : Type 0} (g : Got A) (d : D) → Reads A Anything d (from_json g d)
  from_json-Reads (got a) d = gives a tt
  from_json-Reads (failed what) d = stops (json_exception what)

  pub index-Reads : (o : Option J) (j : J) (d : D) → Reads J Anything d (index_found env.json o j d)
  unfolding index_found
  index-Reads (some v) j d = gives v tt
  index-Reads none j d = elim (Bool-cases (env.json.is_object j)) [
    | inl e ↦ rw e no_read
    | inr e ↦ rw e (stops (json_exception (env.json.index_error j)))
  ]

  pub get_text_at-Reads :
      (k : Bytes) (j : J) (d : D) → Reads Bytes Anything d (get_text_at env.json k j d)
  unfolding get_text_at
  get_text_at-Reads k j d =
      and_then-Reads (λ v. from_json (env.json.get_text v)) (index-Reads (env.json.find k j) j d)
        (λ v u. from_json-Reads (env.json.get_text v) d)

  pub get_bool_at-Reads :
      (k : Bytes) (j : J) (d : D) → Reads Bool Anything d (get_bool_at env.json k j d)
  unfolding get_bool_at
  get_bool_at-Reads k j d =
      and_then-Reads (λ v. from_json (env.json.get_bool v)) (index-Reads (env.json.find k j) j d)
        (λ v u. from_json-Reads (env.json.get_bool v) d)

  pub int-Reads : (z : Option ℤ) (d : D) → Reads ℤ Anything d (lift (or_fault z) d)
  int-Reads none d = no_read
  int-Reads (some z) d = gives z tt

  pub get_int_at-Reads :
      (k : Bytes) (j : J) (d : D) → Reads ℤ Anything d (get_int_at env.json k j d)
  unfolding get_int_at
  get_int_at-Reads k j d =
      and_then-Reads
        (λ v e.
          and_then (from_json (env.json.get_double v) e) (λ x. lift (or_fault (env.json.to_int x))))
        (index-Reads (env.json.find k j) j d)
        (λ v u.
          and_then-Reads (λ x. lift (or_fault (env.json.to_int x)))
            (from_json-Reads (env.json.get_double v) d) (λ x w. int-Reads (env.json.to_int x) d))

  pub test_json_param-Reads :
      (ks : List Bytes) (j : J) (d : D) → Reads Unit Anything d (test_json_param env.json ks j d)
  unfolding test_json_param
  test_json_param-Reads ks j d = elim (Bool-cases (is_empty (lost_params env.json ks j))) [
    | inl e ↦ rw e (gives tt tt)
    | inr e ↦
        rw e
          (stops (http env.json 403 (codes "Lost param : " ++ drop 2 (lost_params env.json ks j))))
  ]

  -- A teacher's part of an approval decides at most a pending status.
  pub decide-Reads :
      (mine : Bool) (body : J) (n : ℕ) (d : D) → Reads ℕ (Decides n) d (decide env mine body n d)
  unfolding decide
  decide-Reads false body n d = gives n (kept n)
  decide-Reads true body n d = elim (Bool-cases (n == pending_approval)) [
    | inl e ↦ rw e (
        and_then-Reads (λ approves. return (decision approves))
          (get_bool_at-Reads (codes "status") body d)
          (λ approves u. gives (decision approves) (decided n approves (ground (arith, e)))))
    | inr e ↦ rw e (stops (http_code env.json 200 403 (codes "status must be pending approval.")))
  ]

  pub lift-Reads : {A : Type 0} (o : Outcome A) (d : D) → Reads A Anything d (lift o d)
  lift-Reads fault d = no_read
  lift-Reads (throw m) d = stops std_exception
  lift-Reads (ok a) d = gives a tt

  pub only_row-Reads :
      (e : Exception J) (rows : Rows F) (d : D)
      → Reads (List (Sqlite3Data F)) Anything d (only_row env.json e rows d)
  unfolding only_row
  only_row-Reads e [] d = stops e
  only_row-Reads e (row ∷ []) d = gives row tt
  only_row-Reads e (row ∷ second ∷ rows) d = stops e
