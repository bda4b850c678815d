-- ===== src/ThreadPool/Order.antt =====
-- The order in which tasks start, and what holds once the workers have returned.
use calabash.Base.{
  inl, inr, subst, IsOk, returns, not-IsOk-throw, append_assoc, uncons, is_empty_iff, Bool-cases,
  append-nil, Bool-cases, ℕ, ◌≡◌, refl, sym, ◌∙◌, ap, true, false, ◌&&◌, List, [], ◌∷◌, ◌++◌,
  is_empty, Outcome, ok, throw, fault, arith,
}
use calabash.ThreadPool.{
  enqueue_on_stopped, Worker, running, returned, ThreadPool, enqueue, wakes, pop_task, take_task,
  started_by, Step, enqueues, takes, finishes, stops, Run, here, next,
}

-- A worker that wakes never reads the front of an empty queue.
pub take_task-IsOk :
    (p : ThreadPool) → wakes p ≡ true → (w : Worker) × (q : ThreadPool) × (take_task p ≡ ok (w, q))
unfolding take_task pop_task
take_task-IsOk p h = elim (Bool-cases (p.stop && is_empty p.tasks)) [
  | inl e ↦ (returned, p, rw e refl)
  | inr e ↦
      let u = uncons p.tasks ((is_empty_iff p.tasks).0 (ground (arith, h, e))) in
      (running u.0, record p { tasks = u.1 }, rw (e, u.2))
]

-- The tasks that an outcome of `take_task` speaks of, the started one in front.
outcome_tasks : Outcome (Worker × ThreadPool) → List ℕ
outcome_tasks (ok (w, q)) = started_by w ++ q.tasks
outcome_tasks (throw e) = []
outcome_tasks fault = []

outcome_tasks-pop_task : (ts : List ℕ) (p : ThreadPool) → outcome_tasks (pop_task ts p) ≡ ts
unfolding pop_task outcome_tasks
outcome_tasks-pop_task [] p = refl
outcome_tasks-pop_task (t ∷ ts) p = refl

outcome_tasks-take_task : (p : ThreadPool) → outcome_tasks (take_task p) ≡ p.tasks
unfolding take_task outcome_tasks
outcome_tasks-take_task p = elim (Bool-cases (p.stop && is_empty p.tasks)) [
  | inl e ↦ rw e refl
  | inr e ↦ rw e (outcome_tasks-pop_task p.tasks p)
]

pub enqueue-stopped :
    (task : ℕ) (p : ThreadPool) → p.stop ≡ true → enqueue task p ≡ throw enqueue_on_stopped
unfolding enqueue
enqueue-stopped task p e = rw e

enqueue-accepted :
    (task : ℕ) (p : ThreadPool)
    → p.stop ≡ false
    → enqueue task p ≡ ok (record p { tasks = p.tasks ++ task ∷ [] })
unfolding enqueue
enqueue-accepted task p e = rw e

pub enqueue-open : (task : ℕ) (p q : ThreadPool) → enqueue task p ≡ ok q → p.stop ≡ false
enqueue-open task p q e = elim (Bool-cases p.stop) [
  | inl s ↦ absurd (
      not-IsOk-throw ThreadPool enqueue_on_stopped
        (subst IsOk (sym e ∙ enqueue-stopped task p s) (returns q)))
  | inr s ↦ s
]

outcome_or : ThreadPool → Outcome ThreadPool → ThreadPool
outcome_or p (ok q) = q
outcome_or p (throw e) = p
outcome_or p fault = p

pub enqueue-result :
    (task : ℕ) (p q : ThreadPool)
    → enqueue task p ≡ ok q
    → record p { tasks = p.tasks ++ task ∷ [] } ≡ q
unfolding outcome_or
enqueue-result task p q e =
    ap (outcome_or p) (sym (enqueue-accepted task p (enqueue-open task p q e)) ∙ e)

Step-order :
    {p q : ThreadPool} {accepted started : List ℕ}
    → Step p accepted started q
    → p.tasks ++ accepted ≡ started ++ q.tasks
unfolding outcome_tasks
Step-order {p = p} (enqueues {q = q} task e) = ap (λ r. r.tasks) (enqueue-result task p q e)
Step-order {p = p} (takes i at h e) =
    append-nil p.tasks ∙ sym (outcome_tasks-take_task p) ∙ ap outcome_tasks e
Step-order {p = p} (finishes i task at) = append-nil p.tasks
Step-order {p = p} stops = append-nil p.tasks

-- Tasks start in the order in which the pool accepts them, each once: what is accepted is what has
-- started, then what is queued.
pub Run-order :
    {p q : ThreadPool} {accepted started : List ℕ}
    → Run p accepted started q
    → p.tasks ++ accepted ≡ started ++ q.tasks
Run-order {p = p} here = append-nil p.tasks
Run-order {p = p} (next {accepted} {started} {accepted'} {started'} {q} {r} run step) =
    sym (append_assoc p.tasks accepted accepted')
    ∙ ap (λ ts. ts ++ accepted') (Run-order run)
    ∙ append_assoc started q.tasks accepted'
    ∙ ap (λ ts. started ++ ts) (Step-order step)
    ∙ sym (append_assoc started started' r.tasks)
