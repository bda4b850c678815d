-- ===== src/Server/Lifetime.antt =====
-- A stop of the server against its loop: what the start opened is closed, or the loop reads a handler
-- that is gone.
use calabash.Base.{
  false, ℕ, ◌≡◌, ◌+◌, refl, none, some, List, Bytes, count, arith, ok, fault, [], ◌∷◌, ◌∙◌, ◌<◌,
}
use calabash.Socket.{Kernel, Socket, server_socket}
use calabash.Socket.Opened.{descriptors, FdLaws, OpenLaws, server_socket-opened, destroy-opened}
use calabash.SocketHandler.Epoll.{
  destroy, ctl_add, Epoll, EpollCalls, new_epoll, create, the_server,
}
use calabash.SocketHandler.Running.{
  Handler, listen_at, begin_handle, with_server, stop, drop_epoll, listen_events, tests, enters,
  wakes, waiting, run_turns, take_turn, enter_wait, wake_up,
}
use calabash.SocketHandler.Opening.{
  EpollFdLaws, ctrl-opened, create-opened, epoll-destroy-opened, drop_server, destroy_handler,
}
use calabash.ThreadPool
use calabash.Server.Running.{Running, start, stop_handler, stop_server}

module _ {K : Type 0} (kernel : Kernel K) (calls : EpollCalls K) (peer : K → Bytes)
    (opened : K → List ℕ) (laws : FdLaws kernel opened) (more : OpenLaws kernel opened)
    (epoll_laws : EpollFdLaws calls opened) where
  -- A handler that is stopped and destroyed closes its poller's descriptor and its server's.
  closed :
      (h : Handler K) (p : Epoll) (s : Socket) (base : ℕ → ℕ)
      → h.epoll ≡ some p
      → h.server ≡ some s
      → ((a : ℕ)
          → count a (opened h.loop.kernel)
            ≡ count a (descriptors p.epfd) + count a (descriptors s.sockfd) + base a)
      → (a : ℕ)
      → count a (opened (destroy_handler kernel calls peer (stop kernel calls peer h)).kernel)
        ≡ base a
  unfolding destroy_handler stop drop_epoll drop_server
  closed h p s base is_p is_s held a =
      let w = h.loop.kernel in
      let v = (destroy calls p w).1 in
      let dropped = λ (n : ℕ).
        epoll-destroy-opened calls opened epoll_laws n p w (λ m. omega (arith, held m)) in
      let ends =
        destroy-opened kernel opened laws more a s v (λ n. omega (arith, held n, dropped n)) in
      rw (is_p, is_s) (omega (arith, held a, dropped a, ends))

  -- The loop of a started server waits in its poller.
  start_lem :
      (s : Running K)
      → 0 < count 0 (opened s.loop.kernel)
      → (h : Handler K) × (p : Epoll) × (sock : Socket) × (start kernel calls peer
            (tests ∷ enters ∷ [])
            s
          ≡ ok (record s {
            thread_pool = some (ThreadPool.make s.config.threads);
            socket_handler = some h;
          }))
        × (h.epoll ≡ some p)
        × (h.server ≡ some sock)
        × (h.place ≡ waiting)
        × (h.loop.handler.owned ≡ s.loop.handler.owned)
        × ((a : ℕ)
            → count a (opened h.loop.kernel)
              ≡ count a (descriptors p.epfd)
                + count a (descriptors sock.sockfd)
                + count a (opened s.loop.kernel))
  unfolding start begin_handle with_server listen_at run_turns take_turn enter_wait
  start_lem s std = (
    _,
    _,
    _,
    refl,
    refl,
    refl,
    refl,
    refl,
    λ a.
        let (sock, w) = server_socket kernel s.config.ip s.config.port s.loop.kernel in
        let made = λ (n : ℕ).
          server_socket-opened kernel opened laws more n s.config.port s.config.ip s.loop.kernel
            std in
        let (p, v) = create calls s.config.connects (new_epoll false) w in
        omega (
          arith,
          ctrl-opened calls opened epoll_laws a p sock.sockfd the_server listen_events ctl_add v,
          create-opened calls opened epoll_laws a s.config.connects (new_epoll false) w
              (omega (arith, std, made 0)),
          made a,
        ),
  )

  stop_early :
      (s : Running K) (h : Handler K)
      → s.socket_handler ≡ some h
      → h.place ≡ waiting
      → stop_server kernel calls peer [] s ≡ fault
  unfolding stop_server stop_handler run_turns stop
  stop_early s h is_h waits = rw (is_h, waits) refl

  stop_late :
      (s : Running K) (h : Handler K)
      → s.socket_handler ≡ some h
      → h.place ≡ waiting
      → h.loop.handler.owned ≡ []
      → stop_server kernel calls peer (wakes (some []) ∷ tests ∷ []) s
        ≡ ok (record s {
          thread_pool = none;
          socket_handler = none;
          loop = destroy_handler kernel calls peer (stop kernel calls peer h);
        })
  unfolding stop_server stop_handler run_turns take_turn wake_up stop destroy_handler
  stop_late s h is_h waits idle = rw (is_h, waits, idle) refl

  -- A server with no task is started, whether or not the kernel gives it a socket and a poller, and its
  -- loop waits in the poller; descriptor 0 is open and none of its own. If it is stopped and the loop
  -- does not go on before the handler is destroyed, the loop is left with a handler that is gone; if
  -- the wait ends in time and the loop makes its test, the stop returns, leaves neither handler nor
  -- thread pool, and every descriptor that the start opened is closed, and no other.
  pub start-stop_server :
      (s : Running K)
      → 0 < count 0 (opened s.loop.kernel)
      → s.loop.handler.owned ≡ []
      → (t : Running K) × (u : Running K) × (start kernel calls peer (tests ∷ enters ∷ []) s ≡ ok t)
        × (stop_server kernel calls peer [] t ≡ fault)
        × (stop_server kernel calls peer (wakes (some []) ∷ tests ∷ []) t ≡ ok u)
        × (u.socket_handler ≡ none)
        × (u.thread_pool ≡ none)
        × ((a : ℕ) → count a (opened u.loop.kernel) ≡ count a (opened s.loop.kernel))
  start-stop_server s std idle =
      let (h, p, sock, started, is_p, is_s, waits, same_tasks, held) = start_lem s std in
      let t : Running K = record s {
        thread_pool = some (ThreadPool.make s.config.threads);
        socket_handler = some h;
      } in
      (
        t,
        _,
        started,
        stop_early t h refl waits,
        stop_late t h refl waits (same_tasks ∙ idle),
        refl,
        refl,
        λ a. closed h p sock (λ b. count b (opened s.loop.kernel)) is_p is_s held a,
      )
