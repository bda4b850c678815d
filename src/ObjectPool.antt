-- ===== src/ObjectPool.antt =====
-- src/include/util/object_pool.h. A slot of the pool's memory is a number, counted over all blocks;
-- the head of `idle_objs` is the back of the vector. Construction and destruction of the objects is
-- left out. A thread that locks the pool's mutex twice faults.
pub mod Invariant
mod Tests
use calabash.Base.{
  ℕ, zero, suc, ◌+◌, ◌-◌, ◌*◌, ◌%◌, ◌^◌, ◌≡◌, Bool, true, false, ◌&&◌, not, Option, none, some,
  List, [], ◌∷◌, ◌++◌, length, is_empty, ◌==◌, if◌then◌else◌, Outcome, ok, fault, ◌>>=◌, count_down,
}

-- `all_memory` holds the number of slots of each block.
pub record ObjectPool : Type 0 where
  pub all_memory : List ℕ
  pub idle_objs : List ℕ
  pub block_size : ℕ
  pub max_size : ℕ
  pub now_size : ℕ

abbrev pub size_mod : ℕ
size_mod = 2 ^ 64

-- `-1` as a `size_t`.
abbrev pub no_limit : ℕ
no_limit = size_mod - 1

abbrev pub total : List ℕ → ℕ
total [] = 0
total (n ∷ ns) = n + total ns

-- `locked`: whether the calling thread holds `mutex_` already.
pub alloc_new_block : Bool → ObjectPool → Outcome ObjectPool
alloc_new_block locked p =
    if locked
    then fault
    else ok (record p {
      all_memory = p.block_size ∷ p.all_memory;
      idle_objs = count_down (total p.all_memory) p.block_size ++ p.idle_objs;
    })

-- The constructor.
pub make : ℕ → Outcome ObjectPool
unfolding alloc_new_block
make block_size = alloc_new_block false (record {
  all_memory = [];
  idle_objs = [];
  block_size = block_size;
  max_size = no_limit;
  now_size = 0;
})

abbrev pub set_block_size : ℕ → ObjectPool → ObjectPool
set_block_size n p = record p { block_size = n }

abbrev pub set_max_size : ℕ → ObjectPool → ObjectPool
set_max_size n p = record p { max_size = n }

-- `back` and `pop_back` of the idle objects.
unfoldable pub take_idle : List ℕ → ObjectPool → Outcome (Option ℕ × ObjectPool)
take_idle [] p = fault
take_idle (ret ∷ rest) p =
    ok (some ret, record p { idle_objs = rest; now_size = (p.now_size + 1) % size_mod })

unfoldable pub is_full : ObjectPool → Bool
is_full p = not (p.max_size == no_limit) && (p.now_size == p.max_size)

-- The pool's lock is held throughout.
unfoldable pub allocate : ObjectPool → Outcome (Option ℕ × ObjectPool)
unfolding is_full alloc_new_block take_idle
allocate p = if is_full p then ok (none, p) else do
  q ← if is_empty p.idle_objs then alloc_new_block true p else ok p
  take_idle q.idle_objs q

unfoldable pub delete : ℕ → ObjectPool → ObjectPool
delete obj p = record p {
  now_size = (p.now_size + no_limit) % size_mod;
  idle_objs = obj ∷ p.idle_objs;
}
