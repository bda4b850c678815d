-- ===== src/SocketHandler/Stopping.antt =====
-- What a stop from another thread does to the loop.
use calabash.Base.{◌≡◌, refl, false, none, some, List, [], ◌∷◌, Bytes, ok, fault}
use calabash.Socket.{Kernel}
use calabash.SocketHandler.Epoll.{EpollCalls, Ready}
use calabash.SocketHandler.Running.{
  Place, testing, tested, waiting, ended, Handler, Turn, tests, enters, wakes, stops, run_turns,
  stop,
}

module _ {K : Type 0} (kernel : Kernel K) (calls : EpollCalls K) (peer : K → Bytes) where
  abbrev pub place_at : Place → Handler K → Handler K
  place_at at h = record h { place = at }

  -- The loop ends at its next test.
  abbrev pub place_after : List Turn → Place
  place_after [] = testing
  place_after (tests ∷ ts) = ended
  place_after (enters ∷ ts) = place_after ts
  place_after (wakes r ∷ ts) = place_after ts
  place_after (stops ∷ ts) = place_after ts

  -- A handler that was stopped.
  abbrev shut : Handler K → Handler K
  shut h = record h { is_open = false; epoll = none }

  run_turns-ended :
      (ts : List Turn) (h : Handler K)
      → run_turns kernel calls peer ts (place_at ended (shut h)) ≡ ok (place_at ended (shut h))
  unfolding run_turns stop
  run_turns-ended [] h = refl
  run_turns-ended (tests ∷ ts) h = run_turns-ended ts h
  run_turns-ended (enters ∷ ts) h = run_turns-ended ts h
  run_turns-ended (wakes r ∷ ts) h = run_turns-ended ts h
  run_turns-ended (stops ∷ ts) h = run_turns-ended ts h

  run_turns-testing :
      (ts : List Turn) (h : Handler K)
      → run_turns kernel calls peer ts (place_at testing (shut h))
        ≡ ok (place_at (place_after ts) (shut h))
  unfolding run_turns stop
  run_turns-testing [] h = refl
  run_turns-testing (tests ∷ ts) h = run_turns-ended ts h
  run_turns-testing (enters ∷ ts) h = run_turns-testing ts h
  run_turns-testing (wakes r ∷ ts) h = run_turns-testing ts h
  run_turns-testing (stops ∷ ts) h = run_turns-testing ts h

  -- When a stop meets the loop at its test, or in a wait that then reports no event, every schedule
  -- returns and the loop ends at its next test, with no socket served. When it meets the loop between
  -- the test and the wait, or in a wait that then reports an event, the next turn of the loop reads
  -- through the poller's pointer, which is null.
  pub stop_lem :
      (h : Handler K) (ts : List Turn) (r : Ready) (rs : List Ready)
      → (run_turns kernel calls peer (stops ∷ ts) (place_at testing h)
          ≡ ok (place_at (place_after ts) (stop kernel calls peer h)))
        × (run_turns kernel calls peer (stops ∷ wakes none ∷ ts) (place_at waiting h)
            ≡ ok (place_at (place_after ts) (stop kernel calls peer h)))
        × (run_turns kernel calls peer (stops ∷ wakes (some []) ∷ ts) (place_at waiting h)
            ≡ ok (place_at (place_after ts) (stop kernel calls peer h)))
        × (run_turns kernel calls peer (stops ∷ enters ∷ ts) (place_at tested h) ≡ fault)
        × (run_turns kernel calls peer (stops ∷ wakes (some (r ∷ rs)) ∷ ts) (place_at waiting h)
            ≡ fault)
  unfolding run_turns stop
  stop_lem h ts r rs =
      let k = stop kernel calls peer h in
      (run_turns-testing ts k, run_turns-testing ts k, run_turns-testing ts k, refl, refl)
