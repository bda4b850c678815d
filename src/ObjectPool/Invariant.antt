-- ===== src/ObjectPool/Invariant.antt =====
-- What the pool keeps: every slot of its memory is idle or in use, once.
use calabash.Base.{
  uncons, is_nil, ℕ, suc, ◌+◌, ◌%◌, ◌<◌, ◌≡◌, ap, ◌∙◌, refl, true, false, none, some, List, [], ◌∷◌,
  length, length-append, ltb, if◌then◌else◌, arith, ok, fault, count, count_down, count-append,
  count-cons, count-nil, remove_one, count-remove_one, length-remove_one, count-count_down,
  length-count_down, same, same_self,
}
use calabash.ObjectPool.{
  ObjectPool, size_mod, no_limit, total, alloc_new_block, make, is_full, allocate, delete,
}

-- `used`: the slots that clients hold.
pub record Inv (p : ObjectPool) (used : List ℕ) : Type 0 where
  pub once :
      (a : ℕ) → count a p.idle_objs + count a used ≡ (if ltb a (total p.all_memory) then 1 else 0)
  pub counted : p.now_size ≡ length used
  pub filled : length p.idle_objs + length used ≡ total p.all_memory

-- Building a pool gives a block of idle slots, each once, and no slot in use.
pub make-Inv : (n : ℕ) → (p : ObjectPool) × (make n ≡ ok p) × Inv p [] × (total p.all_memory ≡ n)
unfolding make alloc_new_block
make-Inv n = (
  _,
  refl,
  record {
    once = λ a.
        ground (arith, count-append a (count_down 0 n) [], count-nil a, count-count_down a 0 n);
    counted = refl;
    filled = omega (arith, length-append (count_down 0 n) [], length-count_down 0 n);
  },
  omega arith,
)

pub allocate-full : (p : ObjectPool) → is_full p ≡ true → allocate p ≡ ok (none, p)
unfolding allocate
allocate-full p e = rw e

-- With no idle slot the pool locks its own mutex again.
allocate-empty : (p : ObjectPool) → is_full p ≡ false → p.idle_objs ≡ [] → allocate p ≡ fault
unfolding allocate
allocate-empty p e none_left = rw (e, none_left)

taken : List ℕ → ObjectPool → ObjectPool
taken rest p = record p { idle_objs = rest; now_size = (p.now_size + 1) % size_mod }

taken-memory : (rest : List ℕ) (p : ObjectPool) → (taken rest p).all_memory ≡ p.all_memory
unfolding taken
taken-memory rest p = refl

allocate-idle :
    (p : ObjectPool) (a : ℕ) (rest : List ℕ)
    → is_full p ≡ false
    → p.idle_objs ≡ a ∷ rest
    → allocate p ≡ ok (some a, taken rest p)
unfolding allocate taken
allocate-idle p a rest e idle = rw (e, idle)

taken-Inv :
    (p : ObjectPool) (used : List ℕ) (a : ℕ) (rest : List ℕ)
    → Inv p used
    → total p.all_memory < no_limit
    → p.idle_objs ≡ a ∷ rest
    → Inv (taken rest p) (a ∷ used) × (count a used ≡ 0)
unfolding taken
taken-Inv p used a rest v room idle =
    let cell : (b : ℕ) → count b p.idle_objs ≡ same b a + count b rest =
      λ b. ap (count b) idle ∙ count-cons b a rest in
    let size : length p.idle_objs ≡ suc (length rest) = ap length idle in
    (
      record {
        once = λ b. omega (arith, v.once b, cell b, count-cons b a used);
        counted = omega (arith, v.counted, v.filled, size);
        filled = omega (arith, v.filled, size);
      },
      ground (arith, v.once a, cell a, same_self a),
    )

-- While clients hold fewer slots than the pool has, and the limit is not reached, a client that asks
-- gets a slot which nobody holds, and what the pool keeps is kept.
pub allocate-Inv :
    (p : ObjectPool) (used : List ℕ)
    → Inv p used
    → total p.all_memory < no_limit
    → is_full p ≡ false
    → length used < total p.all_memory
    → (a : ℕ) × (q : ObjectPool) × (allocate p ≡ ok (some a, q))
      × Inv q (a ∷ used)
      × (count a used ≡ 0)
      × (q.all_memory ≡ p.all_memory)
allocate-Inv p used v room not_full free =
    let u = uncons p.idle_objs (omega (arith, v.filled)) in
    let kept = taken-Inv p used u.0 u.1 v room u.2 in
    (u.0, taken u.1 p, allocate-idle p u.0 u.1 not_full u.2, kept.0, kept.1, taken-memory u.1 p)

-- Once clients hold every slot, below the limit, a further client finds the pool locked by itself:
-- a pool never gets a second block.
pub allocate-exhausted :
    (p : ObjectPool) (used : List ℕ)
    → Inv p used
    → is_full p ≡ false
    → length used ≡ total p.all_memory
    → allocate p ≡ fault
allocate-exhausted p used v not_full all_used =
    allocate-empty p not_full (is_nil p.idle_objs (omega (arith, v.filled)))

-- A slot that a client holds is idle after it is given back, and what the pool keeps is kept.
pub delete-Inv :
    (p : ObjectPool) (used : List ℕ) (a : ℕ)
    → Inv p used
    → total p.all_memory < no_limit
    → 0 < count a used
    → Inv (delete a p) (remove_one a used) × (0 < count a (delete a p).idle_objs)
unfolding delete
delete-Inv p used a v room h =
    let cell : (b : ℕ) → count b (a ∷ p.idle_objs) ≡ same b a + count b p.idle_objs =
      λ b. count-cons b a p.idle_objs in
    let one_less = length-remove_one a used h in
    (
      record {
        once = λ b. omega (arith, v.once b, cell b, count-remove_one b a used h);
        counted = omega (arith, v.counted, v.filled, one_less);
        filled = omega (arith, v.filled, one_less);
      },
      omega (arith, cell a, same_self a),
    )
