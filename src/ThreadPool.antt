-- ===== src/ThreadPool.antt =====
-- src/thread/thread_pool.cpp and src/include/thread/thread_pool.h. A task is a number; the front of
-- `tasks` is the head of the list. A step is what one thread does under the pool's lock, or the end of
-- one task; threads take their steps in any order.
pub mod Order
pub mod Join
pub mod Shutdown
mod Tests
use Prim.Native.String.{String}
use calabash.Base.{
  ℕ, ◌≡◌, Bool, true, false, ◌&&◌, ◌||◌, not, List, [], ◌∷◌, ◌++◌, some, is_empty, get_elem?, set,
  replicate, if◌then◌else◌, Outcome, ok, throw, fault,
}

-- `waiting` in the wait for work, `returned` after the loop.
pub data Worker : Type 0 where
  waiting : Worker
  running : ℕ → Worker
  returned : Worker

pub record ThreadPool : Type 0 where
  pub workers : List Worker
  pub tasks : List ℕ
  pub stop : Bool

abbrev pub make : ℕ → ThreadPool
make threads = record { workers = replicate threads waiting; tasks = []; stop = false }

abbrev pub enqueue_on_stopped : String
enqueue_on_stopped = "enqueue on stopped ThreadPool"

unfoldable pub enqueue : ℕ → ThreadPool → Outcome ThreadPool
enqueue task p =
    if p.stop then throw enqueue_on_stopped else ok (record p { tasks = p.tasks ++ task ∷ [] })

-- The condition of the wait.
abbrev pub wakes : ThreadPool → Bool
wakes p = p.stop || not (is_empty p.tasks)

-- `front` and `pop`; `front` of an empty queue faults.
unfoldable pub pop_task : List ℕ → ThreadPool → Outcome (Worker × ThreadPool)
pop_task [] p = fault
pop_task (task ∷ rest) p = ok (running task, record p { tasks = rest })

-- What a worker does once it wakes, up to the release of the lock.
unfoldable pub take_task : ThreadPool → Outcome (Worker × ThreadPool)
unfolding pop_task
take_task p = if p.stop && is_empty p.tasks then ok (returned, p) else pop_task p.tasks p

abbrev pub set_worker : ℕ → Worker → ThreadPool → ThreadPool
set_worker i w p = record p { workers = set p.workers i w }

-- The destructor's first block; then it joins the workers.
abbrev pub set_stop : ThreadPool → ThreadPool
set_stop p = record p { stop = true }

-- The tasks that a worker starts.
abbrev pub started_by : Worker → List ℕ
started_by (running task) = task ∷ []
started_by waiting = []
started_by returned = []

-- `Step p accepted started q`: a step from p to q, the tasks it accepts and those it starts.
pub data Step (p : ThreadPool) : List ℕ → List ℕ → ThreadPool → Type 0 where
  enqueues : {q : ThreadPool} → (task : ℕ) → enqueue task p ≡ ok q → Step p (task ∷ []) [] q
  takes :
      {q : ThreadPool} {w : Worker}
      → (i : ℕ) → get_elem? p.workers i ≡ some waiting
      → wakes p ≡ true
      → take_task p ≡ ok (w, q)
      → Step p [] (started_by w) (set_worker i w q)
  finishes :
      (i task : ℕ)
      → get_elem? p.workers i ≡ some (running task)
      → Step p [] [] (set_worker i waiting p)
  stops : Step p [] [] (set_stop p)

-- Steps in sequence, with all they accept and all they start, in order.
pub data Run (p : ThreadPool) : List ℕ → List ℕ → ThreadPool → Type 0 where
  here : Run p [] [] p
  next :
      {accepted started accepted' started' : List ℕ} {q r : ThreadPool}
      → Run p accepted started q
      → Step q accepted' started' r
      → Run p (accepted ++ accepted') (started ++ started') r
