-- ===== src/ObjectPool/Tests.antt =====
-- The theorems at pools of two slots.
use calabash.Base.{ℕ, ◌≡◌, refl, ◌<◌, [], ◌∷◌, ok, fault, some, count, remove_one, arith}
use calabash.ObjectPool.{ObjectPool, no_limit, allocate, delete, is_full}
use calabash.ObjectPool.Invariant.{Inv, allocate-Inv, allocate-exhausted, delete-Inv}

abbrev fresh : ObjectPool
fresh = record {
  all_memory = 2 ∷ [];
  idle_objs = 1 ∷ 0 ∷ [];
  block_size = 2;
  max_size = no_limit;
  now_size = 0;
}

abbrev used_up : ObjectPool
used_up = record {
  all_memory = 2 ∷ [];
  idle_objs = [];
  block_size = 2;
  max_size = 100;
  now_size = 2;
}

fresh-Inv : Inv fresh []
unfolding count
fresh-Inv = record { once = λ a. ground arith; counted = refl; filled = refl }

used_up-Inv : Inv used_up (0 ∷ 1 ∷ [])
unfolding count
used_up-Inv = record { once = λ a. ground arith; counted = refl; filled = refl }

allocate-Inv_example :
    (a : ℕ) × (q : ObjectPool) × (allocate fresh ≡ ok (some a, q))
    × Inv q (a ∷ [])
    × (count a [] ≡ 0)
    × (q.all_memory ≡ 2 ∷ [])
unfolding is_full
allocate-Inv_example = allocate-Inv fresh [] fresh-Inv (omega arith) refl (omega arith)

allocate-exhausted_example : allocate used_up ≡ fault
unfolding is_full
allocate-exhausted_example = allocate-exhausted used_up (0 ∷ 1 ∷ []) used_up-Inv refl refl

delete-Inv_example :
    Inv (delete 1 used_up) (remove_one 1 (0 ∷ 1 ∷ [])) × (0 < count 1 (delete 1 used_up).idle_objs)
unfolding count
delete-Inv_example = delete-Inv used_up (0 ∷ 1 ∷ []) 1 used_up-Inv (omega arith) (omega arith)
