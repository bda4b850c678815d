-- ===== src/ThreadPool/Tests.antt =====
-- The theorems at a pool with one worker.
use calabash.Base.{false, ℕ, ◌≡◌, ◌⊎◌, ◌<◌, refl, true, [], ◌∷◌, ◌++◌, List, All, arith, length}
use calabash.ThreadPool.{
  waiting, returned, ThreadPool, make, enqueue, take_task, pop_task, enqueues, stops, finishes,
  takes, Step, set_stop, Run, here, next, set_worker,
}
use calabash.ThreadPool.Order.{Run-order}
use calabash.ThreadPool.Join.{IsStop, measure, Step-measure}
use calabash.ThreadPool.Shutdown.{shutdown-drains}

-- One worker and task 7 in the queue.
abbrev queued : ThreadPool
queued = record { workers = waiting ∷ []; tasks = 7 ∷ []; stop = false }

abbrev stopped : ThreadPool
stopped = record { workers = waiting ∷ []; tasks = []; stop = true }

queued-Run : Run (make 1) (7 ∷ []) [] queued
unfolding enqueue
queued-Run = next here (enqueues 7 refl)

-- The worker starts the task, the destructor stops the pool, the task ends, the worker returns.
joined-Run : Run (make 1) (7 ∷ []) (7 ∷ []) (set_worker 0 returned stopped)
unfolding take_task pop_task
joined-Run =
    next (next (next (next queued-Run (takes 0 refl refl refl)) stops) (finishes 0 7 refl))
      (takes 0 refl refl refl)

Run-order_example : (make 1).tasks ++ 7 ∷ [] ≡ queued.tasks
Run-order_example = Run-order queued-Run

last_step : Step stopped [] [] (set_worker 0 returned stopped)
unfolding take_task
last_step = takes 0 refl refl refl

Step-measure_example :
    ((measure (set_worker 0 returned stopped) < measure stopped)
      ⊎ (IsStop last_step × (set_worker 0 returned stopped ≡ stopped)))
    × (◌≡◌ {A = List ℕ} [] [])
    × (stopped.stop ≡ true)
    × (length stopped.workers ≡ length stopped.workers)
Step-measure_example = Step-measure last_step refl

shutdown-drains_example :
    (rest : List ℕ) × (q : ThreadPool) × Run (set_stop queued) [] rest q
    × All (λ w. w ≡ returned) q.workers
    × ([] ++ rest ≡ 7 ∷ [])
shutdown-drains_example = shutdown-drains 1 queued (7 ∷ []) [] (omega arith) queued-Run
