-- ===== src/SocketHandler/Opening.antt =====
-- The descriptors that a handler opens when it starts and closes when it ends.
use calabash.Base.{
  ℕ, zero, suc, ◌+◌, ◌≡◌, ◌<◌, ◌≤◌, refl, ℤ, true, Option, none, some, List, Bytes, count, same,
  arith,
}
use calabash.Socket.{Kernel, Socket, server_socket}
use calabash.Socket
use calabash.Socket.Opened.{descriptors}
use calabash.SocketHandler.EventLoop.{EventLoop}
use calabash.SocketHandler.Epoll.{
  ctrl, Epoll, EpollCalls, Events, Target, CtlOp, create, created, destroy,
}
use calabash.SocketHandler.Running.{Handler, outside, drop_epoll}

-- The constructor, over what outlives a handler: the pool of sockets and the kernel.
abbrev pub new_handler : {K : Type 0} → EventLoop K → Handler K
new_handler l = record { is_open = true; epoll = none; server = none; loop = l; place = outside }

module _ {K : Type 0} (kernel : Kernel K) (calls : EpollCalls K) (peer : K → Bytes) where
  unfoldable pub drop_server : Option Socket → K → K
  drop_server none w = w
  drop_server (some s) w = (Socket.destroy kernel s w).1

  -- The destructor leaves the pool and the kernel.
  unfoldable pub destroy_handler : Handler K → EventLoop K
  unfolding drop_server
  destroy_handler h = record h.loop {
    kernel = drop_server h.server (drop_epoll kernel calls peer h.epoll h.loop.kernel);
  }

-- What a kernel documents of the descriptors of its epoll.
pub record EpollFdLaws {K : Type 0} (calls : EpollCalls K) (opened : K → List ℕ) : Type 0 where
  pub epoll_create :
      (a m n : ℕ) (w v : K)
      → calls.epoll_create m w ≡ (some n, v)
      → (0 < count 0 (opened w) → 0 < n) × (count a (opened v) ≡ same a n + count a (opened w))
  pub no_epoll :
      (a m : ℕ) (w v : K)
      → calls.epoll_create m w ≡ (none, v)
      → count a (opened v) ≡ count a (opened w)
  pub epoll_ctl :
      (a : ℕ) (epfd fd : ℤ) (op : CtlOp) (events : Events) (ptr : Target) (w : K)
      → count a (opened (calls.epoll_ctl epfd op fd events ptr w)) ≡ count a (opened w)
  pub close_epoll :
      (a n : ℕ) (w : K)
      → 0 < count n (opened w)
      → count a (opened (calls.close_epoll (ℤ.pos n) w)) + same a n ≡ count a (opened w)

module _ {K : Type 0} (calls : EpollCalls K) (opened : K → List ℕ)
    (laws : EpollFdLaws calls opened) where
  created-opened :
      (a n : ℕ) (p : Epoll) (w : K) (r : Option ℕ × K)
      → 0 < count 0 (opened w)
      → calls.epoll_create (n + 1) w ≡ r
      → (let made = created calls n p r in
          count a (opened made.1) ≡ count a (descriptors made.0.epfd) + count a (opened w))
  unfolding created count
  created-opened a n p w (none, v) std e = omega (arith, laws.no_epoll a (n + 1) w v e)
  created-opened a n p w (some zero, v) std e =
      absurd (omega (arith, (laws.epoll_create a (n + 1) 0 w v e).0 std))
  created-opened a n p w (some (suc m), v) std e =
      omega (arith, (laws.epoll_create a (n + 1) (suc m) w v e).1)

  pub create-opened :
      (a n : ℕ) (p : Epoll) (w : K)
      → 0 < count 0 (opened w)
      → (let made = create calls n p w in
          count a (opened made.1) ≡ count a (descriptors made.0.epfd) + count a (opened w))
  unfolding create
  create-opened a n p w std = created-opened a n p w (calls.epoll_create (n + 1) w) std refl

  dropped-opened :
      (a : ℕ) (p : Epoll) (w : K) (fd : ℤ)
      → p.epfd ≡ fd
      → ((n : ℕ) → count n (descriptors fd) ≤ count n (opened w))
      → count a (opened (destroy calls p w).1) + count a (descriptors fd) ≡ count a (opened w)
  unfolding destroy count
  dropped-opened a p w (ℤ.pos zero) e held = rw e (omega arith)
  dropped-opened a p w (ℤ.pos (suc n)) e held =
      rw e (omega (arith, laws.close_epoll a (suc n) w (ground (arith, held (suc n)))))
  dropped-opened a p w (ℤ.negsuc n) e held = rw e (omega arith)

  pub epoll-destroy-opened :
      (a : ℕ) (p : Epoll) (w : K)
      → ((n : ℕ) → count n (descriptors p.epfd) ≤ count n (opened w))
      → count a (opened (destroy calls p w).1) + count a (descriptors p.epfd) ≡ count a (opened w)
  epoll-destroy-opened a p w held = dropped-opened a p w p.epfd refl held

  pub ctrl-opened :
      (a : ℕ) (p : Epoll) (fd : ℤ) (ptr : Target) (events : Events) (op : CtlOp) (w : K)
      → count a (opened (ctrl calls p fd ptr events op w)) ≡ count a (opened w)
  unfolding ctrl
  ctrl-opened a p fd ptr events op w = laws.epoll_ctl a p.epfd fd op _ ptr w
