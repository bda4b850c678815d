-- ===== src/SocketHandler/Serving.antt =====
-- The event loop with descriptors over any sequence of steps.
use calabash.Base.{
  ap, count-cons, append_assoc, ℕ, ◌+◌, ◌≡◌, ◌<◌, refl, sym, ◌∙◌, subst, ◌++◌, ℤ, Bool, true, false,
  Option, none, some, List, ◌∷◌, Bytes, count, count-append, same_self, Outcome, ok, throw, fault,
  ◌>>=◌, arith,
}
use calabash.Socket.{Kernel, accept}
use calabash.Socket.Opened.{FdLaws}
use calabash.ObjectPool.{ObjectPool, allocate, is_full}
use calabash.ObjectPool.Invariant.{allocate-full}
use calabash.SocketHandler.{
  SocketHandler, Event, connects, hangs_up, fails, is_readable, is_other, IsReported, handle_event,
  finish_task, place, Reach,
}
use calabash.SocketHandler
use calabash.SocketHandler.Ownership.{in_use, IsOwned}
use calabash.SocketHandler.Reachable.{Reach-IsOwned}
use calabash.SocketHandler.Holds.{holds}
use calabash.SocketHandler.EventLoop.{
  EventLoop, settle, accept_one, remove_socket, serve_event, end_task, Step, reports, handles,
  finishes, Run, here, next,
}
use calabash.SocketHandler.Descriptors.{Accounts}
use calabash.SocketHandler.Descriptors.Steps.{Step-Accounts}

module _ {K : Type 0} (kernel : Kernel K) (peer : K → Bytes) where
  -- The loop without its descriptors.
  strip : Outcome (Bool × EventLoop K) → Outcome (Bool × SocketHandler)
  strip (ok (goes_on, l)) = ok (goes_on, l.handler)
  strip (throw e) = throw e
  strip fault = fault

  settle-strip :
      (fd : ℤ) (given : Outcome (Option ℕ × ObjectPool)) (l : EventLoop K)
      → strip (given >>= λ g. ok (settle kernel peer fd g l))
        ≡ (given >>= λ g. ok (place g l.handler))
  unfolding strip settle place
  settle-strip fd (ok (none, q)) l = refl
  settle-strip fd (ok (some s, q)) l = refl
  settle-strip fd (throw e) l = refl
  settle-strip fd fault l = refl

  serve_event-strip :
      (event : Event) (l : EventLoop K)
      → strip (serve_event kernel peer event l) ≡ handle_event event l.handler
  unfolding strip serve_event handle_event accept_one remove_socket
  serve_event-strip connects l =
      let (fd, w) = accept kernel l.server l.kernel in
      settle-strip fd (allocate l.handler.pool) (record l { kernel = w })
  serve_event-strip (hangs_up s) l = refl
  serve_event-strip (fails s) l = refl
  serve_event-strip (is_readable s) l = refl
  serve_event-strip (is_other s) l = refl

  end_task-finish_task :
      (parsed : Bool) (s : ℕ) (l : EventLoop K)
      → (end_task kernel peer parsed s l).handler ≡ finish_task parsed s l.handler
  unfolding end_task finish_task remove_socket
  end_task-finish_task true s l = refl
  end_task-finish_task false s l = refl

  Step-handler :
      {l k : EventLoop K} {lost : List ℕ}
      → Step kernel peer l lost k
      → SocketHandler.Step l.handler k.handler
  unfolding strip
  Step-handler {l = l} (reports s there) = SocketHandler.reports s there
  Step-handler {l = l} (handles event reported e) =
      SocketHandler.handles event reported (sym (serve_event-strip event l) ∙ ap strip e)
  Step-handler {l = l} (finishes parsed s there) =
      subst (SocketHandler.Step l.handler) (sym (end_task-finish_task parsed s l))
        (SocketHandler.finishes parsed s there)

  -- Whatever the loop with its descriptors does, the loop on slots can do: leaving out the sockets and
  -- the kernel, each run is one of the pool, the poller and the tasks alone.
  pub Run-Reach :
      {l k : EventLoop K} {lost : List ℕ} → Run kernel peer l lost k → Reach l.handler k.handler
  Run-Reach here = SocketHandler.here
  Run-Reach (next run step) = SocketHandler.next (Run-Reach run) (Step-handler step)

  module _ (opened : K → List ℕ) (laws : FdLaws kernel opened) where
    Run-Accounts :
        (base : List ℕ) {l k : EventLoop K} {lost : List ℕ}
        → Run kernel peer l lost k
        → 0 < count 0 base
        → Accounts kernel peer opened laws base l
        → IsOwned l.handler
        → Accounts kernel peer opened laws (lost ++ base) k
    Run-Accounts base here std ac v = ac
    Run-Accounts base (next {lost = lost} {more = more} run step) std ac v =
        let before = Run-Accounts base run std ac v in
        let after =
          Step-Accounts kernel peer opened laws (lost ++ base) step
            (omega (arith, std, count-append 0 lost base)) before
            (Reach-IsOwned (Run-Reach run) v) in
        rw (append_assoc more lost base) after

    -- From a state in which every socket in use is at one place, and in which the open descriptors are
    -- those of the sockets in use and some others, among them 0, so that the kernel gives 0 to no socket, in whatever order events are reported and handled
    -- and tasks end, the open descriptors are those of the sockets then in use, the same others, and
    -- the ones that were accepted while the pool was full: no other is left open, and none is closed
    -- while its socket is in use.
    pub Run-opened :
        (base : List ℕ) {l k : EventLoop K} {lost : List ℕ} (a : ℕ)
        → 0 < count 0 base
        → IsOwned l.handler
        → ((n : ℕ)
            → count n (opened l.kernel) ≡ count n base + holds n l.sockets (in_use l.handler))
        → Run kernel peer l lost k
        → count a (opened k.kernel)
          ≡ count a lost + count a base + holds a k.sockets (in_use k.handler)
    unfolding Accounts
    Run-opened base {lost = lost} a std v ac run =
        omega (arith, Run-Accounts base run std ac v a, count-append a lost base)

    -- Where descriptor 0 is open and of no socket, a descriptor that is accepted while the pool is full
    -- ends the round and is never closed, whatever happens afterwards.
    pub refused-opened :
        (base : List ℕ) {l k : EventLoop K} {lost : List ℕ} (n : ℕ) (w : K)
        → 0 < count 0 base
        → IsOwned l.handler
        → ((a : ℕ)
            → count a (opened l.kernel) ≡ count a base + holds a l.sockets (in_use l.handler))
        → is_full l.handler.pool ≡ true
        → kernel.accept_on l.server.sockfd l.kernel ≡ (some n, w)
        → Run kernel peer (record l { kernel = w }) lost k
        → (serve_event kernel peer connects l ≡ ok (false, record l { kernel = w }))
          × (0 < count n (opened k.kernel))
    unfolding serve_event accept_one settle
    refused-opened base {l = l} {lost = lost} n w std v ac full got run = (
      rw (allocate-full l.handler.pool full) (rw got refl),
      (let start = λ (a : ℕ). (laws.accept_on a n l.server.sockfd l.kernel w got).1 in
          omega (
            arith,
            same_self n,
            Run-opened (n ∷ base) {l = record l { kernel = w }} n
                (omega (arith, std, count-cons 0 n base)) v
                (λ a. omega (arith, ac a, start a, count-cons a n base)) run,
            count-cons n n base,
          )),
    )
