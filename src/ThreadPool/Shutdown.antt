-- ===== src/ThreadPool/Shutdown.antt =====
-- What holds once the workers have returned, and that they can.
use calabash.Base.{
  length-replicate, subst, ltb, ℕ, zero, suc, ◌<◌, ◌≡◌, ◌⊎◌, inl, inr, refl, sym, ◌∙◌, ap, subst,
  true, List, [], ◌∷◌, ◌++◌, some, get_elem?, replicate, ok, arith, length, length-set, All,
  append-nil, append_assoc, Bool-cases, is_nil,
}
use calabash.ThreadPool.{
  Worker, waiting, running, returned, ThreadPool, make, wakes, set_worker, set_stop, started_by,
  Step, enqueues, takes, finishes, stops, Run, here, next,
}
use calabash.ThreadPool.Order.{enqueue-result, enqueue-open, take_task-IsOk, Run-order}
use calabash.ThreadPool.Join.{
  gone, sum, measure, Turn, take_task-Turn, measure-set_worker, sum-set, find_active, takes-measure,
  Step-measure,
}

-- A worker leaves its loop only from a stopped pool with no task queued, and both stay so.
pub IsJoinable : ThreadPool → Type 0
IsJoinable p = 0 < sum gone p.workers → (p.stop ≡ true) × (p.tasks ≡ [])

Step-IsJoinable :
    {p q : ThreadPool} {accepted started : List ℕ}
    → Step p accepted started q
    → IsJoinable p
    → IsJoinable q
unfolding IsJoinable Turn
Step-IsJoinable {p = p} (enqueues {q = q} task e) v = λ some_gone. absurd (
    ground (
      arith,
      enqueue-open task p q e,
      (v (
          subst (λ ws. 0 < sum gone ws) (sym (ap (λ r. r.workers) (enqueue-result task p q e)))
            some_gone)).0,
    ))
Step-IsJoinable {p = p} (takes {q = q} {w = w} i at h e) v =
    let t : Turn p (ok (w, q)) = subst (Turn p) e (take_task-Turn p) in
    let same_workers : get_elem? q.workers i ≡ some waiting = ap (λ ws. get_elem? ws i) t.0 ∙ at in
    let all : sum gone q.workers ≡ sum gone p.workers = ap (sum gone) t.0 in
    λ some_gone. elim (Bool-cases (ltb 0 (gone w))) [
      | inl now ↦ t.3 (ground (arith, now))
      | inr before ↦
          let kept = v (
            ground
              (arith, sum-set gone q.workers i waiting w same_workers, all, some_gone, before)) in
          let none_left : length p.tasks ≡ 0 = ap length kept.1 in
          (t.1 ∙ kept.0, is_nil q.tasks (omega (arith, t.2, none_left)))
    ]
Step-IsJoinable {p = p} (finishes i task at) v =
    λ some_gone. v (omega (arith, sum-set gone p.workers i (running task) waiting at, some_gone))
Step-IsJoinable {p = p} stops v = λ some_gone. (refl, (v some_gone).1)

-- A stopped pool whose workers are not all out of their loop has a step that shortens what is ahead.
stopped-Step :
    (p : ThreadPool)
    → p.stop ≡ true
    → All (λ w. w ≡ returned) p.workers
      ⊎ ((started : List ℕ) × (q : ThreadPool) × Step p [] started q × (measure q < measure p))
stopped-Step p s = elim (find_active p.workers) [
  | inl all ↦ inl all
  | inr (inl (i, at)) ↦
      let woken : wakes p ≡ true = ground (arith, s) in
      let r = take_task-IsOk p woken in
      inr (
        started_by r.0,
        set_worker i r.0 r.1,
        takes i at woken r.2,
        takes-measure p r.1 r.0 i r.2 at,
      )
  | inr (inr (i, task, at)) ↦ inr (
    [],
    set_worker i waiting p,
    finishes i task at,
    omega (arith, measure-set_worker p i (running task) waiting at),
  )
]

Step-workers :
    {p q : ThreadPool} {accepted started : List ℕ}
    → Step p accepted started q
    → length q.workers ≡ length p.workers
unfolding Turn
Step-workers {p = p} (enqueues {q = q} task e) =
    sym (ap (λ r. length r.workers) (enqueue-result task p q e))
Step-workers {p = p} (takes {q = q} {w = w} i at h e) =
    let t : Turn p (ok (w, q)) = subst (Turn p) e (take_task-Turn p) in
    length-set q.workers i w ∙ ap length t.0
Step-workers {p = p} (finishes i task at) = length-set p.workers i waiting
Step-workers stops = refl

Run-workers :
    {o p : ThreadPool} {accepted started : List ℕ}
    → Run o accepted started p
    → length p.workers ≡ length o.workers
Run-workers here = refl
Run-workers (next run step) = Step-workers step ∙ Run-workers run

-- From a stopped pool its workers can all leave their loop, and no task is accepted on the way.
pub drain :
    (fuel : ℕ) {o p : ThreadPool} {started : List ℕ}
    → Run o [] started p
    → p.stop ≡ true
    → measure p < fuel
    → (started' : List ℕ) × (q : ThreadPool) × Run o [] started' q
      × All (λ w. w ≡ returned) q.workers
drain zero run s h = absurd (omega arith)
drain (suc fuel) {o} {p} {started} run s h = elim (stopped-Step p s) [
  | inl all ↦ (started, p, run, all)
  | inr (more, q, step, less) ↦
      drain fuel (next run step) (Step-measure step s).2 (omega (arith, less, h))
]

-- One run after another.
Run-append :
    {o p q : ThreadPool} {accepted started accepted' started' : List ℕ}
    → Run o accepted started p
    → Run p accepted' started' q
    → Run o (accepted ++ accepted') (started ++ started') q
Run-append {o} {p} {accepted = accepted} {started = started} run here =
    rw (append-nil accepted, append-nil started) run
Run-append {accepted = accepted} {started = started} run
      (next {accepted = a} {started = s} {accepted' = b} {started' = t} rest step) =
    rw (← append_assoc accepted a b, ← append_assoc started s t) (next (Run-append run rest) step)

Run-IsJoinable :
    {o p : ThreadPool} {accepted started : List ℕ}
    → Run o accepted started p
    → IsJoinable o
    → IsJoinable p
Run-IsJoinable here v = v
Run-IsJoinable (next run step) v = Step-IsJoinable step (Run-IsJoinable run v)

gone-replicate : (n : ℕ) → sum gone (replicate n waiting) ≡ 0
gone-replicate zero = refl
gone-replicate (suc n) = omega (arith, gone-replicate n)

make-IsJoinable : (threads : ℕ) → IsJoinable (make threads)
unfolding IsJoinable
make-IsJoinable threads h = absurd (omega (arith, gone-replicate threads))

All-gone : (ws : List Worker) → All (λ w. w ≡ returned) ws → sum gone ws ≡ length ws
All-gone [] h = refl
All-gone (w ∷ ws) (e, h) = let one : gone w ≡ 1 = ap gone e in omega (arith, one, All-gone ws h)

-- When the destructor has joined every worker of a pool that has one, exactly the accepted tasks have
-- started, in order.
pub joined-order :
    (threads : ℕ) (q : ThreadPool) (accepted started : List ℕ)
    → 0 < threads
    → Run (make threads) accepted started q
    → All (λ w. w ≡ returned) q.workers
    → started ≡ accepted
unfolding IsJoinable
joined-order threads q accepted started has_worker run all =
    let size : length q.workers ≡ threads = Run-workers run ∙ length-replicate threads waiting in
    let kept =
      Run-IsJoinable run (make-IsJoinable threads) (omega (arith, All-gone q.workers all, size)) in
    sym (Run-order run ∙ ap (λ ts. started ++ ts) kept.1 ∙ append-nil started)

-- From any state that a pool with a worker reaches, its threads can go on after `stop` to where the
-- destructor has joined every worker. On the way no task is accepted, and those that are started follow
-- the ones started before, so that each accepted task has started once, in order.
pub shutdown-drains :
    (threads : ℕ) (p : ThreadPool) (accepted started : List ℕ)
    → 0 < threads
    → Run (make threads) accepted started p
    → (rest : List ℕ) × (q : ThreadPool) × Run (set_stop p) [] rest q
      × All (λ w. w ≡ returned) q.workers
      × (started ++ rest ≡ accepted)
shutdown-drains threads p accepted started has_worker run =
    let (rest, q, after, all) =
      drain (suc (measure (set_stop p))) {o = set_stop p} here refl (omega arith) in
    let whole = Run-append (next run stops) after in
    let order =
      joined-order threads q ((accepted ++ []) ++ []) ((started ++ []) ++ rest) has_worker whole
        all in
    (
      rest,
      q,
      after,
      all,
      ap (λ xs. xs ++ rest) (sym (append-nil started))
          ∙ order
          ∙ append-nil (accepted ++ [])
          ∙ append-nil accepted,
    )
