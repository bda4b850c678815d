-- ===== src/ThreadPool/Join.antt =====
-- The destructor's joins: after `stop` the steps come to an end, with every worker out of its loop.
use calabash.Base.{
  ℕ, zero, suc, ◌+◌, ◌*◌, ◌≤◌, ◌<◌, ◌≡◌, ◌⊎◌, inl, inr, refl, sym, ◌∙◌, ap, subst, true, ◌&&◌, List,
  [], ◌∷◌, some, is_empty, get_elem?, set, Outcome, ok, throw, fault, arith, length, length-set,
  All, Bool-cases, is_nil, is_empty_iff,
}
use calabash.ThreadPool.{
  Worker, waiting, running, returned, ThreadPool, pop_task, take_task, set_worker, Step, enqueues,
  takes, finishes, stops,
}
use calabash.ThreadPool.Order.{enqueue-open}

-- The steps that a worker has ahead of it, and half of those that a task asks for.
abbrev pub weight : Worker → ℕ
weight waiting = 1
weight (running task) = 2
weight returned = 0

-- 1 once the worker is out of its loop.
abbrev pub gone : Worker → ℕ
gone returned = 1
gone waiting = 0
gone (running task) = 0

abbrev pub sum : (Worker → ℕ) → List Worker → ℕ
sum f [] = 0
sum f (w ∷ ws) = f w + sum f ws

abbrev pub measure : ThreadPool → ℕ
measure p = 2 * length p.tasks + sum weight p.workers

pub sum-set :
    (f : Worker → ℕ) (ws : List Worker) (i : ℕ) (old w : Worker)
    → get_elem? ws i ≡ some old
    → sum f (set ws i w) + f old ≡ sum f ws + f w
sum-set f [] i old w e = absurd (ground arith)
sum-set f (v ∷ ws) zero old w e = let h : f v ≡ f old = cc in omega (arith, h)
sum-set f (v ∷ ws) (suc i) old w e = omega (arith, sum-set f ws i old w e)

-- A pool whose workers are not all out of their loop has one that waits or one that runs a task.
pub find_active :
    (ws : List Worker)
    → All (λ w. w ≡ returned) ws
      ⊎ (((i : ℕ) × (get_elem? ws i ≡ some waiting))
          ⊎ ((i : ℕ) × (task : ℕ) × (get_elem? ws i ≡ some (running task))))
find_active [] = inl tt
find_active (waiting ∷ ws) = inr (inl (0, refl))
find_active (running task ∷ ws) = inr (inr (0, task, refl))
find_active (returned ∷ ws) = elim (find_active ws) [
  | inl h ↦ inl (refl, h)
  | inr (inl (i, e)) ↦ inr (inl (suc i, e))
  | inr (inr (i, task, e)) ↦ inr (inr (suc i, task, e))
]

-- What a worker's turn leaves: a task fewer and the worker running, or the pool as it was.
unfoldable pub Turn : ThreadPool → Outcome (Worker × ThreadPool) → Type 0
Turn p (ok (w, q)) =
    (q.workers ≡ p.workers)
    × (q.stop ≡ p.stop)
    × (2 * length q.tasks + weight w ≤ 2 * length p.tasks)
    × (0 < gone w → (q.stop ≡ true) × (q.tasks ≡ []))
Turn p (throw e) = Unit
Turn p fault = Unit

pop_task-Turn : (ts : List ℕ) (p : ThreadPool) → p.tasks ≡ ts → Turn p (pop_task ts p)
unfolding pop_task Turn
pop_task-Turn [] p e = tt
pop_task-Turn (t ∷ ts) p e =
    let size : length p.tasks ≡ suc (length ts) = ap length e in
    (refl, refl, omega (arith, size), λ h. absurd (omega arith))

nothing_left : (p : ThreadPool) → (p.stop && is_empty p.tasks) ≡ true → length p.tasks ≡ 0
nothing_left p e = ground (arith, e, is_empty_iff p.tasks)

pub take_task-Turn : (p : ThreadPool) → Turn p (take_task p)
unfolding take_task Turn
take_task-Turn p = elim (Bool-cases (p.stop && is_empty p.tasks)) [
  | inl e ↦
      rw e (refl, refl, omega arith, λ h. (ground (arith, e), is_nil p.tasks (nothing_left p e)))
  | inr e ↦ rw e (pop_task-Turn p.tasks p refl)
]

pub measure-set_worker :
    (p : ThreadPool) (i : ℕ) (old w : Worker)
    → get_elem? p.workers i ≡ some old
    → measure (set_worker i w p) + weight old ≡ measure p + weight w
measure-set_worker p i old w e = omega (arith, sum-set weight p.workers i old w e)

pub takes-measure :
    (p q : ThreadPool) (w : Worker) (i : ℕ)
    → take_task p ≡ ok (w, q)
    → get_elem? p.workers i ≡ some waiting
    → measure (set_worker i w q) < measure p
unfolding Turn
takes-measure p q w i e at =
    let t : Turn p (ok (w, q)) = subst (Turn p) e (take_task-Turn p) in
    let same_workers : get_elem? q.workers i ≡ some waiting = ap (λ ws. get_elem? ws i) t.0 ∙ at in
    let all : sum weight q.workers ≡ sum weight p.workers = ap (sum weight) t.0 in
    omega (arith, measure-set_worker q i waiting w same_workers, t.2, all)

-- Another `stop`, and no other step.
abbrev pub IsStop :
    {p q : ThreadPool} {accepted started : List ℕ} → Step p accepted started q → Type 0
IsStop (enqueues task e) = ⊥
IsStop (takes i at h e) = ⊥
IsStop (finishes i task at) = ⊥
IsStop stops = Unit

-- Every step of a stopped pool, but another `stop`, which leaves it as it was, shortens what is ahead of
-- its workers; each accepts no task, and leaves the pool stopped with as many workers.
pub Step-measure :
    {p q : ThreadPool} {accepted started : List ℕ} (step : Step p accepted started q)
    → p.stop ≡ true
    → ((measure q < measure p) ⊎ (IsStop step × (q ≡ p)))
      × (accepted ≡ [])
      × (q.stop ≡ true)
      × (length q.workers ≡ length p.workers)
unfolding Turn
Step-measure {p = p} (enqueues {q = q} task e) s =
    absurd (ground (arith, s, enqueue-open task p q e))
Step-measure {p = p} (takes {q = q} {w = w} i at h e) s =
    let t : Turn p (ok (w, q)) = subst (Turn p) e (take_task-Turn p) in
    (inl (takes-measure p q w i e at), refl, t.1 ∙ s, length-set q.workers i w ∙ ap length t.0)
Step-measure {p = p} (finishes i task at) s = (
  inl (omega (arith, measure-set_worker p i (running task) waiting at)),
  refl,
  s,
  length-set p.workers i waiting,
)
Step-measure {p = p} stops s = (inr (tt, ap (λ b. record p { stop = b }) (sym s)), refl, refl, refl)
