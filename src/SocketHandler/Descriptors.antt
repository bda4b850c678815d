-- ===== src/SocketHandler/Descriptors.antt =====
-- Every descriptor that was accepted is with one socket in use, or closed, or lost.
use calabash.Base.{
  [], length, ltb, same_self, ℕ, ◌+◌, ◌≡◌, ◌<◌, ◌≤◌, refl, subst, ◌++◌, ℤ, Bool, true, false, some,
  List, ◌∷◌, Bytes, count, count-append, count-remove_one, remove_one, ◌==◌, Outcome, ok, throw,
  fault, arith, Bool-cases, inl, inr,
}
use calabash.Socket.{new_socket, Kernel, accept, close}
use calabash.Socket.Opened.{
  descriptors, FdLaws, set_non_blocking-opened, accept-opened, close-opened,
}
use calabash.ObjectPool.{ObjectPool, is_full, total}
use calabash.ObjectPool.Invariant.{allocate-exhausted, allocate-Inv, allocate-full}
use calabash.SocketHandler.{
  SocketHandler, Event, connects, hangs_up, fails, is_readable, is_other, IsReported, detach,
}
use calabash.SocketHandler.Ownership.{in_use, IsOwned, count-in_use}
use calabash.SocketHandler.EventLoop.{
  EventLoop, put_socket, settle, accept_one, remove_socket, serve_event, end_task, lost_by, Step,
  reports, handles, finishes,
}
use calabash.SocketHandler.Holds.{
  holds, holds-remove_one, holds-put_socket, holds-in_use, holds-cons,
}
pub mod Steps

module _ {K : Type 0} (kernel : Kernel K) (peer : K → Bytes) (opened : K → List ℕ)
    (laws : FdLaws kernel opened) where
  -- `base`: the descriptors of no socket in use.
  unfoldable pub Accounts : List ℕ → EventLoop K → Type 0
  Accounts base l =
      (a : ℕ) → count a (opened l.kernel) ≡ count a base + holds a l.sockets (in_use l.handler)

  pub once-in_use : (h : SocketHandler) (s : ℕ) → IsOwned h → count s (in_use h) ≤ 1
  once-in_use h s v = ground (arith, v.pool_inv.once s)

  -- The descriptor of a socket in use is open.
  descriptor-opened :
      (base : List ℕ) (l : EventLoop K) (s : ℕ)
      → Accounts base l
      → 0 < count s (in_use l.handler)
      → (n : ℕ) → count n (descriptors (l.sockets s).sockfd) ≤ count n (opened l.kernel)
  unfolding Accounts
  descriptor-opened base l s ac there n =
      omega (arith, ac n, holds-remove_one n s l.sockets (in_use l.handler) there)

  -- A socket that leaves its place is closed, and its descriptor with it.
  pub removed-Accounts :
      (base : List ℕ) (l : EventLoop K) (s : ℕ) (h : SocketHandler)
      → Accounts base l
      → 0 < count s (in_use l.handler)
      → count s (in_use h) ≡ 0
      → ((a : ℕ)
          → holds a l.sockets (in_use h) + count a (descriptors (l.sockets s).sockfd)
            ≡ holds a l.sockets (in_use l.handler))
      → Accounts base (remove_socket kernel peer s (record l { handler = h }))
  unfolding Accounts remove_socket
  removed-Accounts base l s h ac there gone moved a =
      let shut = close kernel (l.sockets s) l.kernel in
      omega (
        arith,
        ac a,
        moved a,
        (close-opened kernel opened laws a (l.sockets s) l.kernel
            (descriptor-opened base l s ac there)).0,
        holds-put_socket a s shut.0 l.sockets (in_use h) gone,
      )

  -- A socket that moves from one place to another keeps its descriptor.
  pub moved-Accounts :
      (base : List ℕ) (l : EventLoop K) (h : SocketHandler)
      → Accounts base l
      → ((a : ℕ) → holds a l.sockets (in_use h) ≡ holds a l.sockets (in_use l.handler))
      → Accounts base (record l { handler = h })
  unfolding Accounts
  moved-Accounts base l h ac moved a = omega (arith, ac a, moved a)

  -- A reported socket is closed.
  pub closed-Accounts :
      (base : List ℕ) (l : EventLoop K) (s : ℕ)
      → Accounts base l
      → IsOwned l.handler
      → 0 < count s l.handler.poller.disarmed
      → Accounts base (remove_socket kernel peer s (record l { handler = detach s l.handler }))
  closed-Accounts base l s ac v there =
      let h = l.handler in
      let xs = h.poller.armed in
      let ys = h.poller.disarmed in
      removed-Accounts base l s (detach s h) ac (omega (arith, count-in_use xs ys h.owned s))
        (omega (
          arith,
          once-in_use h s v,
          count-in_use xs ys h.owned s,
          count-in_use xs (remove_one s ys) h.owned s,
          count-remove_one s s ys there,
          same_self s,
        ))
        (λ a. omega (
          arith,
          holds-in_use a l.sockets xs ys h.owned,
          holds-in_use a l.sockets xs (remove_one s ys) h.owned,
          holds-remove_one a s l.sockets ys there,
        ))

  pub settled-Accounts :
      (base : List ℕ) (l : EventLoop K) (fd : ℤ) (w : K) (slot : ℕ) (q : ObjectPool)
      → Accounts base l
      → ((a : ℕ) → count a (opened w) ≡ count a (descriptors fd) + count a (opened l.kernel))
      → count slot (in_use l.handler) ≡ 0
      → Accounts base (settle kernel peer fd (some slot, q) (record l { kernel = w })).1
  unfolding Accounts settle holds
  settled-Accounts base l fd w slot q ac grown new a =
      let made = record (new_socket [] 0) { ip = peer w; sockfd = fd } in
      let here : count a (descriptors (put_socket slot made l.sockets slot).sockfd)
          ≡ count a (descriptors fd) =
        let e : (slot == slot) ≡ true = ground arith in rw e refl in
      omega (
        arith,
        ac a,
        grown a,
        set_non_blocking-opened kernel opened laws a made w,
        here,
        holds-put_socket a slot made l.sockets (in_use l.handler) new,
      )

  -- A descriptor without a socket stays open.
  pub refused-Accounts :
      (base : List ℕ) (l : EventLoop K) (fd : ℤ) (w : K)
      → Accounts base l
      → ((a : ℕ) → count a (opened w) ≡ count a (descriptors fd) + count a (opened l.kernel))
      → Accounts (descriptors fd ++ base) (record l { kernel = w })
  unfolding Accounts
  refused-Accounts base l fd w ac grown a =
      omega (arith, ac a, grown a, count-append a (descriptors fd) base)
