-- ===== src/Server/Tests/OnRunning.antt =====
-- A server that starts and stops on a kernel that is the list of its open descriptors.
use calabash.Base.{
  ℕ, ◌≡◌, refl, none, some, List, [], ◌∷◌, count, count-remove_one, arith, ok, fault,
}
use calabash.Socket.Opened.{OpenLaws}
use calabash.SocketHandler.Epoll.{EpollCalls}
use calabash.SocketHandler.Opening.{EpollFdLaws}
use calabash.SocketHandler.Tests.OnDescriptors.{
  kernel, kernel-FdLaws, opened, peer, idle_loop, close_one, zero_open,
}
use calabash.SocketHandler.Running.{tests, enters, wakes}
use calabash.Server.Running.{Running, new_server, default_config, start, stop_server}
use calabash.Server.Lifetime.{start-stop_server}

kernel-OpenLaws : OpenLaws kernel opened
unfolding count
kernel-OpenLaws = record {
  open_fd = λ a n w v e.
      let m : 3 ≡ n = cc in
      let r : 3 ∷ w ≡ v = cc in (λ std. omega (arith, m), rw (← r) (rw (← m) refl));
  no_fd = λ a w v e. absurd (cc);
  bind_address = λ a port fd ip w. refl;
  listen_on = λ a n fd w. refl;
  set_option = λ a fd option w. refl;
}

abbrev calls : EpollCalls (List ℕ)
calls = record {
  epoll_create = λ n w. (some 9, 9 ∷ w);
  epoll_ctl = λ epfd op fd events ptr w. w;
  epoll_wait = λ fd n ms w. (some [], w);
  close_epoll = close_one;
}

calls-EpollFdLaws : EpollFdLaws calls opened
unfolding count
calls-EpollFdLaws = record {
  epoll_create = λ a m n w v e.
      let f : 9 ≡ n = cc in
      let r : 9 ∷ w ≡ v = cc in (λ std. omega (arith, f), rw (← r) (rw (← f) refl));
  no_epoll = λ a m w v e. absurd (cc);
  epoll_ctl = λ a epfd fd op events ptr w. refl;
  close_epoll = λ a n w h. count-remove_one a n w h;
}

abbrev server : Running (List ℕ)
server = new_server kernel calls peer default_config idle_loop

start-stop_server_example :
    (t : Running (List ℕ)) × (u : Running (List ℕ)) × (start kernel calls peer
        (tests ∷ enters ∷ [])
        server
      ≡ ok t)
    × (stop_server kernel calls peer [] t ≡ fault)
    × (stop_server kernel calls peer (wakes (some []) ∷ tests ∷ []) t ≡ ok u)
    × (u.socket_handler ≡ none)
    × (u.thread_pool ≡ none)
    × ((a : ℕ) → count a (opened u.loop.kernel) ≡ count a (opened server.loop.kernel))
start-stop_server_example =
    start-stop_server kernel calls peer opened kernel-FdLaws kernel-OpenLaws calls-EpollFdLaws
      server zero_open refl
