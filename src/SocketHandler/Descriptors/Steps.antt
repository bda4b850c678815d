-- ===== src/SocketHandler/Descriptors/Steps.antt =====
-- Each step of the loop keeps the account of the accepted descriptors.
use calabash.Base.{
  length, ltb, same_self, ℕ, ◌<◌, subst, ◌++◌, Bool, true, false, List, ◌∷◌, Bytes, count,
  count-remove_one, remove_one, Outcome, ok, throw, fault, arith, Bool-cases, inl, inr,
}
use calabash.Socket.{Kernel, accept}
use calabash.Socket.Opened.{FdLaws, accept-opened}
use calabash.ObjectPool.{is_full, total}
use calabash.ObjectPool.Invariant.{allocate-exhausted, allocate-Inv, allocate-full}
use calabash.SocketHandler.{Event, connects, hangs_up, fails, is_readable, is_other, IsReported}
use calabash.SocketHandler.Ownership.{in_use, IsOwned, count-in_use}
use calabash.SocketHandler.EventLoop.{
  EventLoop, accept_one, remove_socket, serve_event, end_task, lost_by, Step, reports, handles,
  finishes,
}
use calabash.SocketHandler.Holds.{holds-remove_one, holds-in_use, holds-cons}
use calabash.SocketHandler.Descriptors.{
  Accounts, removed-Accounts, moved-Accounts, closed-Accounts, settled-Accounts, refused-Accounts,
  once-in_use,
}

module _ {K : Type 0} (kernel : Kernel K) (peer : K → Bytes) (opened : K → List ℕ)
    (laws : FdLaws kernel opened) where
  -- If the round returns, what it leaves accounts for the descriptors.
  LeavesAccounts : List ℕ → Outcome (Bool × EventLoop K) → Type 0
  LeavesAccounts base (ok (goes_on, k)) = Accounts kernel peer opened laws base k
  LeavesAccounts base (throw e) = Unit
  LeavesAccounts base fault = Unit

  accept_one-LeavesAccounts :
      (base : List ℕ) (l : EventLoop K)
      → 0 < count 0 base
      → Accounts kernel peer opened laws base l
      → IsOwned l.handler
      → LeavesAccounts (lost_by kernel peer connects l ++ base) (accept_one kernel peer l)
  unfolding LeavesAccounts accept_one Accounts
  accept_one-LeavesAccounts base l std ac v =
      let open_still : 0 < count 0 (opened l.kernel) = omega (arith, ac 0, std) in
      let got = accept kernel l.server l.kernel in
      let grown = λ (a : ℕ). accept-opened kernel opened laws a l.server l.kernel open_still in
      elim (Bool-cases (is_full l.handler.pool)) [
        | inl full ↦
            rw (allocate-full l.handler.pool full)
              (rw full (refused-Accounts kernel peer opened laws base l got.0 got.1 ac grown))
        | inr not_full ↦
            rw not_full
              (elim (Bool-cases
                (ltb (length (in_use l.handler)) (total l.handler.pool.all_memory))) [
                  | inl free ↦
                      let g =
                        allocate-Inv l.handler.pool (in_use l.handler) v.pool_inv v.room not_full
                          (ground (arith, free)) in
                      rw g.2 (
                        settled-Accounts kernel peer opened laws base l got.0 got.1 g.0 g.1 ac grown
                          g.4)
                  | inr taken ↦
                      rw
                        (allocate-exhausted l.handler.pool (in_use l.handler) v.pool_inv not_full
                          (ground (arith, taken, v.pool_inv.filled)))
                        tt
                ])
      ]

  serve_event-LeavesAccounts :
      (base : List ℕ) (event : Event) (l : EventLoop K)
      → 0 < count 0 base
      → Accounts kernel peer opened laws base l
      → IsOwned l.handler
      → IsReported event l.handler
      → LeavesAccounts (lost_by kernel peer event l ++ base) (serve_event kernel peer event l)
  unfolding LeavesAccounts serve_event
  serve_event-LeavesAccounts base connects l std ac v reported =
      accept_one-LeavesAccounts base l std ac v
  serve_event-LeavesAccounts base (hangs_up s) l std ac v reported =
      closed-Accounts kernel peer opened laws base l s ac v reported
  serve_event-LeavesAccounts base (fails s) l std ac v reported =
      closed-Accounts kernel peer opened laws base l s ac v reported
  serve_event-LeavesAccounts base (is_readable s) l std ac v reported =
      let xs = l.handler.poller.armed in
      let ys = l.handler.poller.disarmed in
      moved-Accounts kernel peer opened laws base l _ ac (λ a. omega (
        arith,
        holds-in_use a l.sockets xs ys l.handler.owned,
        holds-in_use a l.sockets xs (remove_one s ys) (s ∷ l.handler.owned),
        holds-remove_one a s l.sockets ys reported,
        holds-cons a s l.sockets l.handler.owned,
      ))
  serve_event-LeavesAccounts base (is_other s) l std ac v reported = ac

  dropped-Accounts :
      (base : List ℕ) (l : EventLoop K) (s : ℕ)
      → Accounts kernel peer opened laws base l
      → IsOwned l.handler
      → 0 < count s l.handler.owned
      → Accounts kernel peer opened laws base (
          remove_socket kernel peer s
            (record l { handler = record l.handler { owned = remove_one s l.handler.owned } }))
  dropped-Accounts base l s ac v there =
      let h = l.handler in
      let xs = h.poller.armed in
      let ys = h.poller.disarmed in
      removed-Accounts kernel peer opened laws base l s (record h { owned = remove_one s h.owned })
        ac (omega (arith, count-in_use xs ys h.owned s))
        (omega (
          arith,
          once-in_use kernel peer opened laws h s v,
          count-in_use xs ys h.owned s,
          count-in_use xs ys (remove_one s h.owned) s,
          count-remove_one s s h.owned there,
          same_self s,
        ))
        (λ a. omega (
          arith,
          holds-in_use a l.sockets xs ys h.owned,
          holds-in_use a l.sockets xs ys (remove_one s h.owned),
          holds-remove_one a s l.sockets h.owned there,
        ))

  end_task-Accounts :
      (base : List ℕ) (parsed : Bool) (l : EventLoop K) (s : ℕ)
      → Accounts kernel peer opened laws base l
      → IsOwned l.handler
      → 0 < count s l.handler.owned
      → Accounts kernel peer opened laws base (end_task kernel peer parsed s l)
  unfolding end_task
  end_task-Accounts base false l s ac v there = dropped-Accounts base l s ac v there
  end_task-Accounts base true l s ac v there =
      let h = l.handler in
      let xs = h.poller.armed in
      let ys = h.poller.disarmed in
      moved-Accounts kernel peer opened laws base l _ ac (λ a. omega (
        arith,
        holds-in_use a l.sockets xs ys h.owned,
        holds-in_use a l.sockets (s ∷ xs) ys (remove_one s h.owned),
        holds-remove_one a s l.sockets h.owned there,
        holds-cons a s l.sockets xs,
      ))

  pub Step-Accounts :
      (base : List ℕ) {l k : EventLoop K} {lost : List ℕ}
      → Step kernel peer l lost k
      → 0 < count 0 base
      → Accounts kernel peer opened laws base l
      → IsOwned l.handler
      → Accounts kernel peer opened laws (lost ++ base) k
  unfolding LeavesAccounts
  Step-Accounts base {l = l} (reports s there) std ac v =
      let h = l.handler in
      let xs = h.poller.armed in
      let ys = h.poller.disarmed in
      moved-Accounts kernel peer opened laws base l _ ac (λ a. omega (
        arith,
        holds-in_use a l.sockets xs ys h.owned,
        holds-in_use a l.sockets (remove_one s xs) (s ∷ ys) h.owned,
        holds-remove_one a s l.sockets xs there,
        holds-cons a s l.sockets ys,
      ))
  Step-Accounts base {l = l} (handles event reported e) std ac v =
      subst (LeavesAccounts (lost_by kernel peer event l ++ base)) e
        (serve_event-LeavesAccounts base event l std ac v reported)
  Step-Accounts base {l = l} (finishes parsed s there) std ac v =
      end_task-Accounts base parsed l s ac v there
