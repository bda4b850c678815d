-- ===== src/Server/Onion.antt =====
-- What a chain of handlers does: handlers that work before and after their continuation nest.
use calabash.Base.{
  append-nil, drop-all, subst, ℕ, zero, suc, ◌+◌, ◌<◌, ◌≤◌, ◌≡◌, refl, sym, ap, ◌∙◌, Bool, true,
  false, some, List, [], ◌∷◌, ◌++◌, length, get_elem?, drop, ltb, if◌then◌else◌, Outcome, ok, ◌>>=◌,
  arith, Bool-cases, inl, inr,
}
use calabash.Dict.{lookup}
use calabash.Request.{Request}
use calabash.Response.{Types, new_response}
use calabash.Server.{
  call_at, handle_bound, handle, handle_found, Exchange, Chain, ServerFunc, Server, Files,
  next_func,
}

-- A handler that works, may call its continuation once, and works again.
pub record Middleware (W : Type 0) : Type 0 where
  pub before : Exchange W → Exchange W
  pub goes_on : Exchange W → Bool
  pub after : Exchange W → Exchange W

module _ {W : Type 0} where
  unfoldable pub as_func : Middleware W → ServerFunc W
  as_func m next c =
      let d = record c { exchange = m.before c.exchange } in
      if m.goes_on d.exchange
      then (do e ← next d; ok (record e { exchange = m.after e.exchange }))
      else ok d

  abbrev pub funcs : List (Middleware W) → List (ServerFunc W)
  funcs [] = []
  funcs (m ∷ ms) = as_func m ∷ funcs ms

  unfoldable pub onion : List (Middleware W) → Exchange W → Exchange W
  onion [] x = x
  onion (m ∷ ms) x =
      let y = m.before x in let z = m.after (onion ms y) in if m.goes_on y then z else y

  -- The outcome is a value, with that exchange.
  Ends : Outcome (Chain W) → Exchange W → Type 0
  Ends o x = (d : Chain W) × (o ≡ ok d) × (d.exchange ≡ x)

  length-funcs : (ms : List (Middleware W)) → length (funcs ms) ≡ length ms
  length-funcs [] = refl
  length-funcs (m ∷ ms) = ap suc (length-funcs ms)

  at_index :
      (ms : List (Middleware W)) (i : ℕ)
      → i < length ms
      → (m : Middleware W) × (get_elem? (funcs ms) i ≡ some (as_func m))
        × (drop i ms ≡ m ∷ drop (suc i) ms)
  at_index [] i h = absurd (omega arith)
  at_index (m ∷ ms) zero h = (m, refl, refl)
  at_index (m ∷ ms) (suc i) h = at_index ms i (omega arith)

  as_func-Ends :
      (m : Middleware W) (ms : List (Middleware W)) (next : Chain W → Outcome (Chain W))
      (c : Chain W)
      → ((x : Exchange W) → Ends (next (record c { exchange = x })) (onion ms x))
      → Ends (as_func m next c) (onion (m ∷ ms) c.exchange)
  unfolding as_func onion Ends
  as_func-Ends m ms next c h = elim (Bool-cases (m.goes_on (m.before c.exchange))) [
    | inl on ↦
        let (d, e, same) = h (m.before c.exchange) in
        rw (on, e) (record d { exchange = m.after d.exchange }, refl, ap m.after same)
    | inr stop ↦ rw stop (record c { exchange = m.before c.exchange }, refl, refl)
  ]

  ended : (c : Chain W) → Ends (ok c) (onion [] c.exchange)
  unfolding Ends onion
  ended c = (c, refl, refl)

  called-Ends :
      (ms rest : List (Middleware W)) (i : ℕ) (next : Chain W → Outcome (Chain W)) (c : Chain W)
      → i < length ms
      → ((x : Exchange W)
          → Ends (next (record c { exchange = x })) (onion (drop (suc i) ms ++ rest) x))
      → Ends (call_at (get_elem? (funcs ms) i) next c) (onion (drop i ms ++ rest) c.exchange)
  unfolding call_at
  called-Ends ms rest i next c h spec =
      let (m, got, cut) = at_index ms i h in
      rw (got, cut) (as_func-Ends m (drop (suc i) ms ++ rest) next c spec)

  module _ (fuel : ℕ) (ps fs : List (ServerFunc W)) (c : Chain W) where
    next_func-process :
        ltb c.process_func_index (length ps) ≡ true
        → next_func (suc fuel) ps fs c
          ≡ call_at
              (get_elem? ps c.process_func_index)
              (next_func fuel ps fs)
              (record c { process_func_index = suc c.process_func_index })
    unfolding next_func
    next_func-process e = rw e refl

    next_func-func :
        ltb c.process_func_index (length ps) ≡ false
        → ltb c.func_index (length fs) ≡ true
        → next_func (suc fuel) ps fs c
          ≡ call_at
              (get_elem? fs c.func_index)
              (next_func fuel ps fs)
              (record c { func_index = suc c.func_index })
    unfolding next_func
    next_func-func e e' = rw (e, e') refl

    next_func-over :
        ltb c.process_func_index (length ps) ≡ false
        → ltb c.func_index (length fs) ≡ false
        → next_func (suc fuel) ps fs c ≡ ok c
    unfolding next_func
    next_func-over e e' = rw (e, e') refl

  abbrev at_exchange : Exchange W → ℕ → ℕ → Chain W
  at_exchange x i j = record { exchange = x; process_func_index = i; func_index = j }

  next_func-Ends :
      (fuel : ℕ) (ps fs : List (Middleware W)) (x : Exchange W) (i j : ℕ)
      → length ps + length fs < fuel + i + j
      → i ≤ length ps
      → j ≤ length fs
      → Ends
          (next_func fuel (funcs ps) (funcs fs) (at_exchange x i j))
          (onion (drop i ps ++ drop j fs) x)
  next_func-Ends zero ps fs x i j enough low_i low_j = absurd (omega arith)
  next_func-Ends (suc fuel) ps fs x i j enough low_i low_j =
      let c = at_exchange x i j in
      let next = next_func fuel (funcs ps) (funcs fs) in
      let size = length-funcs ps in
      let size' = length-funcs fs in
      elim (Bool-cases (ltb i (length (funcs ps)))) [
        | inl process ↦ rw (next_func-process fuel (funcs ps) (funcs fs) c process) (
            called-Ends ps (drop j fs) i next (at_exchange x (suc i) j)
              (ground (arith, process, size))
              (λ y.
                next_func-Ends fuel ps fs y (suc i) j (omega arith) (ground (arith, process, size))
                  low_j))
        | inr no_process ↦
            let none_left : drop i ps ≡ [] = drop-all i ps (ground (arith, no_process, size)) in
            elim (Bool-cases (ltb j (length (funcs fs)))) [
              | inl func ↦
                  rw (next_func-func fuel (funcs ps) (funcs fs) c no_process func, none_left)
                    (subst
                      (λ ms.
                        Ends (call_at (get_elem? (funcs fs) j) next (at_exchange x i (suc j)))
                          (onion ms x))
                      (append-nil (drop j fs))
                      (called-Ends fs [] j next (at_exchange x i (suc j))
                        (ground (arith, func, size'))
                        (λ y.
                          subst (λ ms. Ends (next (at_exchange y i (suc j))) (onion ms y))
                            (ap (λ ms. ms ++ drop (suc j) fs) none_left
                              ∙ sym (append-nil (drop (suc j) fs)))
                            (next_func-Ends fuel ps fs y i (suc j) (omega arith) low_i
                              (ground (arith, func, size'))))))
              | inr no_func ↦
                  rw
                    (
                      next_func-over fuel (funcs ps) (funcs fs) c no_process no_func,
                      none_left,
                      drop-all j fs (ground (arith, no_func, size')),
                    )
                    (ended c)
            ]
      ]

  handle_bound-onion :
      (s : Server W) (ps fs : List (Middleware W)) (x : Exchange W)
      → s.process_handles ≡ funcs ps
      → handle_bound s (funcs fs) x ≡ ok (onion (ps ++ fs) x)
  unfolding handle_bound Ends
  handle_bound-onion s ps fs x e =
      let size : length (funcs ps) + length (funcs fs) ≡ length ps + length fs =
        omega (arith, length-funcs ps, length-funcs fs) in
      let (d, run, same) =
        next_func-Ends (suc (length (funcs ps) + length (funcs fs))) ps fs x 0 0
          (omega (arith, size)) (omega arith) (omega arith) in
      rw (e, run) (ap ok same)

  -- A request for a bound path passes the process handlers and then the handlers of the path, in the
  -- order in which they were bound, where each works on the exchange, may call its continuation once,
  -- and works again: each works before those behind it and, if it called them, after them.
  pub handle-onion :
      (files : Files) (s : Server W) (req : Request) (types : Types) (world : W)
      (ps fs : List (Middleware W))
      → s.process_handles ≡ funcs ps
      → lookup req.path s.handlers ≡ some (funcs fs)
      → handle files s req types world
        ≡ ok (
            onion
              (ps ++ fs)
              (record { req = req; resp = new_response; types = types; world = world }))
  unfolding handle handle_found
  handle-onion files s req types world ps fs e found = rw found (
      handle_bound-onion s ps fs
        (record { req = req; resp = new_response; types = types; world = world }) e)
