-- ===== src/SocketHandler/Tests/OnPolling.antt =====
-- The poller and the life of a handler on a small epoll, which reports the server's socket once it has
-- a descriptor.
use calabash.Base.{
  ℕ, zero, suc, ◌≡◌, ◌≤◌, refl, ℤ, true, false, Option, none, some, List, [], ◌∷◌, length, ok,
  fault, arith,
}
use calabash.Socket.{is_open, new_socket}
use calabash.SocketHandler.Epoll.{
  Epoll, EpollCalls, EpollLaws, Ready, the_server, new_epoll, create, wait, wait-fits, creates,
  fresh,
}
use calabash.SocketHandler.Running.{
  Handler, waiting, testing, tested, tests, enters, wakes, stops, run_turns, stop, listen_events,
}
use calabash.SocketHandler.Stopping.{stop_lem, place_at, place_after}
use calabash.SocketHandler.Tests.OnDescriptors.{kernel, idle_loop, peer}

abbrev one_ready : Ready
one_ready = record { ptr = the_server; events = listen_events }

abbrev some_ready : ℤ → ℕ → Option (List Ready)
some_ready (ℤ.pos zero) n = none
some_ready (ℤ.pos (suc fd)) zero = some []
some_ready (ℤ.pos (suc fd)) (suc n) = some (one_ready ∷ [])
some_ready (ℤ.negsuc fd) n = none

abbrev calls : EpollCalls (List ℕ)
calls = record {
  epoll_create = λ n w. (some 9, 9 ∷ w);
  epoll_ctl = λ epfd op fd events ptr w. w;
  epoll_wait = λ fd n ms w. (some_ready fd n, w);
  close_epoll = λ fd w. w;
}

some_ready-length :
    (fd : ℤ) (n : ℕ) (r : List Ready)
    → some_ready fd n ≡ some r
    → (length r ≤ n) × (is_open fd ≡ true)
some_ready-length (ℤ.pos zero) n r e = absurd (cc)
some_ready-length (ℤ.pos (suc fd)) zero r e = let s : [] ≡ r = cc in rw (← s) (omega arith, refl)
some_ready-length (ℤ.pos (suc fd)) (suc n) r e =
    let s : one_ready ∷ [] ≡ r = cc in rw (← s) (omega arith, refl)
some_ready-length (ℤ.negsuc fd) n r e = absurd (cc)

calls-EpollLaws : EpollLaws calls
calls-EpollLaws = record {
  at_most = λ fd n ms w v r e. (some_ready-length fd n r (cc)).0;
  only_open = λ fd n ms w v r e. (some_ready-length fd n r (cc)).1;
}

abbrev poller : Epoll
poller = record { epfd = ℤ.pos 9; max_connections = 4; events = some 5; et = false }

wait-fits_example : (size : ℕ) × (poller.events ≡ some size) × (1 ≤ size)
unfolding create wait
wait-fits_example =
    wait-fits calls calls-EpollLaws poller (ℤ.pos 5000) [] [] (one_ready ∷ [])
      (creates 4 (new_epoll false) [] (fresh false)) refl

abbrev serving : Handler (List ℕ)
serving = record {
  is_open = true;
  epoll = some poller;
  server = some (new_socket [] 80);
  loop = idle_loop;
  place = waiting;
}

stop_lem_example :
    (run_turns kernel calls peer (stops ∷ tests ∷ []) (place_at kernel calls peer testing serving)
      ≡ ok (
          place_at kernel calls peer
            (place_after kernel calls peer (tests ∷ []))
            (stop kernel calls peer serving)))
    × (run_turns kernel calls peer
          (stops ∷ wakes none ∷ tests ∷ [])
          (place_at kernel calls peer waiting serving)
        ≡ ok (
            place_at kernel calls peer
              (place_after kernel calls peer (tests ∷ []))
              (stop kernel calls peer serving)))
    × (run_turns kernel calls peer
          (stops ∷ wakes (some []) ∷ tests ∷ [])
          (place_at kernel calls peer waiting serving)
        ≡ ok (
            place_at kernel calls peer
              (place_after kernel calls peer (tests ∷ []))
              (stop kernel calls peer serving)))
    × (run_turns kernel calls peer
          (stops ∷ enters ∷ tests ∷ [])
          (place_at kernel calls peer tested serving)
        ≡ fault)
    × (run_turns kernel calls peer
          (stops ∷ wakes (some (one_ready ∷ [])) ∷ tests ∷ [])
          (place_at kernel calls peer waiting serving)
        ≡ fault)
stop_lem_example = stop_lem kernel calls peer serving (tests ∷ []) one_ready []
