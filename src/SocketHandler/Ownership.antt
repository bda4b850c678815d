-- ===== src/SocketHandler/Ownership.antt =====
-- Every socket in use is at one place: watched, reported, or with one task.
use calabash.Base.{
  subst, length-remove_one, count-cons, count-remove_one, remove_one, same, suc, ℕ, ◌≡◌, ◌+◌, ◌<◌,
  refl, sym, ◌∙◌, Option, none, some, List, ◌∷◌, ◌++◌, arith, count, count-append, length,
  length-append, Outcome, ok, throw, fault, Bool-cases, inl, inr, ltb,
}
use calabash.ObjectPool.{delete, ObjectPool, total, no_limit, is_full, allocate}
use calabash.ObjectPool.Invariant.{delete-Inv, Inv, allocate-Inv, allocate-exhausted, allocate-full}
use calabash.SocketHandler.{add, EventPoller, report, del, SocketHandler}

abbrev pub in_use : SocketHandler → List ℕ
in_use h = h.poller.armed ++ (h.poller.disarmed ++ h.owned)

-- The pool's invariant, with what clients hold spelled out.
pub record IsOwned (h : SocketHandler) : Type 0 where
  pub pool_inv : Inv h.pool (in_use h)
  pub room : total h.pool.all_memory < no_limit

recount :
    (p : ObjectPool) (used new : List ℕ)
    → Inv p used
    → ((a : ℕ) → count a new ≡ count a used)
    → length new ≡ length used
    → Inv p new
recount p used new v same_counts same_length = record {
  once = λ a. omega (arith, v.once a, same_counts a);
  counted = v.counted ∙ sym same_length;
  filled = omega (arith, v.filled, same_length);
}

-- Where a socket stands, by place.
pub count-in_use :
    (xs ys zs : List ℕ) (a : ℕ) → count a (xs ++ (ys ++ zs)) ≡ count a xs + count a ys + count a zs
count-in_use xs ys zs a = omega (arith, count-append a xs (ys ++ zs), count-append a ys zs)

length-in_use : (xs ys zs : List ℕ) → length (xs ++ (ys ++ zs)) ≡ length xs + length ys + length zs
length-in_use xs ys zs = omega (arith, length-append xs (ys ++ zs), length-append ys zs)

-- What a call of `Allocate` may leave.
unfoldable pub Kept : ObjectPool → List ℕ → Outcome (Option ℕ × ObjectPool) → Type 0
Kept p used (ok (none, q)) = q ≡ p
Kept p used (ok (some a, q)) = Inv q (a ∷ used) × (q.all_memory ≡ p.all_memory)
Kept p used (throw e) = Unit
Kept p used fault = Unit

-- An idle slot that the pool gives out is new to its clients.
pub allocate-Kept :
    (p : ObjectPool) (used : List ℕ)
    → Inv p used
    → total p.all_memory < no_limit
    → Kept p used (allocate p)
unfolding Kept
allocate-Kept p used v room = elim (Bool-cases (is_full p)) [
  | inl full ↦ rw (allocate-full p full) refl
  | inr not_full ↦ elim (Bool-cases (ltb (length used) (total p.all_memory))) [
    | inl free ↦
        let g = allocate-Inv p used v room not_full (ground (arith, free)) in rw g.2 (g.3, g.5)
    | inr taken ↦ rw (allocate-exhausted p used v not_full (ground (arith, taken, v.filled))) tt
  ]
]

delete-memory : (s : ℕ) (p : ObjectPool) → (delete s p).all_memory ≡ p.all_memory
unfolding delete
delete-memory s p = refl

-- A socket that moves from one place to another stays in use once.
moved :
    (h : SocketHandler) (e : EventPoller) (owned : List ℕ)
    → IsOwned h
    → ((a : ℕ) → count a (in_use (record h { poller = e; owned = owned })) ≡ count a (in_use h))
    → length (in_use (record h { poller = e; owned = owned })) ≡ length (in_use h)
    → IsOwned (record h { poller = e; owned = owned })
moved h e owned v same_counts same_length = record {
  pool_inv =
      recount h.pool (in_use h) (in_use (record h { poller = e; owned = owned })) v.pool_inv
        same_counts same_length;
  room = v.room;
}

module _ (h : SocketHandler) (v : IsOwned h) (s : ℕ) where
  pub report-IsOwned :
      0 < count s h.poller.armed → IsOwned (record h { poller = report s h.poller })
  report-IsOwned there =
      let xs = h.poller.armed in
      let ys = h.poller.disarmed in
      moved h (report s h.poller) h.owned v
        (λ a. omega (
          arith,
          count-in_use (remove_one s xs) (s ∷ ys) h.owned a,
          count-in_use xs ys h.owned a,
          count-cons a s ys,
          count-remove_one a s xs there,
        ))
        (omega (
          arith,
          length-in_use (remove_one s xs) (s ∷ ys) h.owned,
          length-in_use xs ys h.owned,
          length-remove_one s xs there,
        ))

  pub dispatch-IsOwned :
      0 < count s h.poller.disarmed
      → IsOwned (record h { poller = del s h.poller; owned = s ∷ h.owned })
  dispatch-IsOwned there =
      let xs = h.poller.armed in
      let ys = h.poller.disarmed in
      moved h (del s h.poller) (s ∷ h.owned) v
        (λ a. omega (
          arith,
          count-in_use xs (remove_one s ys) (s ∷ h.owned) a,
          count-in_use xs ys h.owned a,
          count-cons a s h.owned,
          count-remove_one a s ys there,
        ))
        (omega (
          arith,
          length-in_use xs (remove_one s ys) (s ∷ h.owned),
          length-in_use xs ys h.owned,
          length-remove_one s ys there,
        ))

  pub return-IsOwned :
      0 < count s h.owned
      → IsOwned (record h { poller = add s h.poller; owned = remove_one s h.owned })
  return-IsOwned there =
      let xs = h.poller.armed in
      let ys = h.poller.disarmed in
      moved h (add s h.poller) (remove_one s h.owned) v
        (λ a. omega (
          arith,
          count-in_use (s ∷ xs) ys (remove_one s h.owned) a,
          count-in_use xs ys h.owned a,
          count-cons a s xs,
          count-remove_one a s h.owned there,
        ))
        (omega (
          arith,
          length-in_use (s ∷ xs) ys (remove_one s h.owned),
          length-in_use xs ys h.owned,
          length-remove_one s h.owned there,
        ))

  -- A socket that leaves its place is given back to the pool.
  deleted :
      (e : EventPoller) (owned : List ℕ)
      → 0 < count s (in_use h)
      → ((a : ℕ)
          → count a (in_use (record h { poller = e; owned = owned })) + same a s
            ≡ count a (in_use h))
      → suc (length (in_use (record h { poller = e; owned = owned }))) ≡ length (in_use h)
      → IsOwned (record h { poller = e; owned = owned; pool = delete s h.pool })
  deleted e owned there counts lengths = record {
    pool_inv =
        recount (delete s h.pool) (remove_one s (in_use h))
          (in_use (record h { poller = e; owned = owned }))
          (delete-Inv h.pool (in_use h) s v.pool_inv v.room there).0
          (λ a. omega (arith, counts a, count-remove_one a s (in_use h) there))
          (omega (arith, lengths, length-remove_one s (in_use h) there));
    room = subst (λ m. total m < no_limit) (sym (delete-memory s h.pool)) v.room;
  }

  pub closed-IsOwned :
      0 < count s h.poller.disarmed
      → IsOwned (record h { poller = del s h.poller; pool = delete s h.pool })
  closed-IsOwned there =
      let xs = h.poller.armed in
      let ys = h.poller.disarmed in
      deleted (del s h.poller) h.owned (omega (arith, count-in_use xs ys h.owned s))
        (λ a. omega (
          arith,
          count-in_use xs (remove_one s ys) h.owned a,
          count-in_use xs ys h.owned a,
          count-remove_one a s ys there,
        ))
        (omega (
          arith,
          length-in_use xs (remove_one s ys) h.owned,
          length-in_use xs ys h.owned,
          length-remove_one s ys there,
        ))

  pub dropped-IsOwned :
      0 < count s h.owned
      → IsOwned (record h { owned = remove_one s h.owned; pool = delete s h.pool })
  dropped-IsOwned there =
      let xs = h.poller.armed in
      let ys = h.poller.disarmed in
      deleted h.poller (remove_one s h.owned) (omega (arith, count-in_use xs ys h.owned s))
        (λ a. omega (
          arith,
          count-in_use xs ys (remove_one s h.owned) a,
          count-in_use xs ys h.owned a,
          count-remove_one a s h.owned there,
        ))
        (omega (
          arith,
          length-in_use xs ys (remove_one s h.owned),
          length-in_use xs ys h.owned,
          length-remove_one s h.owned there,
        ))
