-- ===== src/SocketHandler/Running.antt =====
-- The life of a handler: `SocketHandler::listen`, `handle` and `stop` of src/socket/socket_handler.cpp.
-- One thread runs the loop of `handle`, another may call `stop`; a schedule says who goes on. A read
-- through the null pointer that `stop` leaves is a fault.
use calabash.Base.{
  ℕ, Bool, true, false, Option, none, some, List, [], ◌∷◌, Bytes, Outcome, ok, fault, if◌then◌else◌,
  ◌>>=◌,
}
use calabash.ObjectPool.{set_max_size}
use calabash.Socket.{Kernel, Socket, server_socket}
use calabash.SocketHandler.EventLoop.{EventLoop, serve_event}
use calabash.SocketHandler.Epoll.{
  Epoll, EpollCalls, Events, Ready, the_server, new_epoll, event_of, create, add_fd, destroy,
}

-- Where the thread of the loop is: before `handle`, at the test of `is_open_`, behind it, in the wait,
-- or behind the loop.
pub data Place : Type 0 where
  outside testing tested waiting ended : Place

pub record Handler (K : Type 0) : Type 0 where
  pub is_open : Bool
  pub epoll : Option Epoll
  pub server : Option Socket
  pub loop : EventLoop K
  pub place : Place

-- What one of the threads does: the loop's its test, the call of the wait, or the end of the wait with
-- what it gave; another one a stop.
pub data Turn : Type 0 where
  tests : Turn
  enters : Turn
  wakes : Option (List Ready) → Turn
  stops : Turn

abbrev pub listen_events : Events
listen_events = record {
  one_shot = false;
  readable = true;
  hang_up = true;
  failure = true;
  edge = false;
}

module _ {K : Type 0} (kernel : Kernel K) (calls : EpollCalls K) (peer : K → Bytes) where
  unfoldable pub listen_at : Bytes → ℕ → Handler K → Handler K
  listen_at ip port h =
      let (s, w) = server_socket kernel ip port h.loop.kernel in
      record h { server = some s; loop = record h.loop { server = s; kernel = w } }

  unfoldable pub with_server : Option Socket → Epoll → Handler K → Outcome (Handler K)
  with_server none p h = fault
  with_server (some s) p h = ok (record h {
    epoll = some p;
    loop = record h.loop {
      kernel = add_fd calls p s.sockfd the_server listen_events h.loop.kernel;
    };
  })

  -- `handle` up to its loop.
  unfoldable pub begin_handle : ℕ → Handler K → Outcome (Handler K)
  unfolding with_server
  begin_handle max_connections h = do
    let (p, w) = create calls max_connections (new_epoll false) h.loop.kernel
    added ←
        with_server h.server p (record h { is_open = true; loop = record h.loop { kernel = w } })
    let served = added.loop.handler
    ok (record added {
      loop = record added.loop {
        handler = record served { pool = set_max_size max_connections served.pool };
      };
      place = testing;
    })

  -- The round over the reported events; a full pool leaves it.
  unfoldable pub serve_ready : List Ready → EventLoop K → Outcome (EventLoop K)
  serve_ready [] l = ok l
  serve_ready (r ∷ rs) l = do
    (goes_on, next) ← serve_event kernel peer (event_of r.ptr r.events) l
    let rest = serve_ready rs next
    if goes_on then rest else ok next

  -- `wait` is called through `m_epoll`.
  unfoldable pub enter_wait : Option Epoll → Handler K → Outcome (Handler K)
  enter_wait none h = fault
  enter_wait (some p) h = ok (record h { place = waiting })

  -- The events are read through `m_epoll`; a failure reports -1, and a timeout 0 events.
  unfoldable pub wake_up : Option (List Ready) → Option Epoll → Handler K → Outcome (Handler K)
  unfolding serve_ready
  wake_up none p h = ok (record h { place = testing })
  wake_up (some []) p h = ok (record h { place = testing })
  wake_up (some (r ∷ rs)) none h = fault
  wake_up (some (r ∷ rs)) (some p) h = do
    l ← serve_ready (r ∷ rs) h.loop
    ok (record h { loop = l; place = testing })

  unfoldable pub drop_epoll : Option Epoll → K → K
  drop_epoll none w = w
  drop_epoll (some p) w = (destroy calls p w).1

  unfoldable pub stop : Handler K → Handler K
  unfolding drop_epoll
  stop h = record h {
    is_open = false;
    epoll = none;
    loop = record h.loop { kernel = drop_epoll h.epoll h.loop.kernel };
  }

  -- What the thread of the loop does at each place; a turn that is not its next changes nothing.
  unfoldable pub take_turn : Place → Turn → Handler K → Outcome (Handler K)
  unfolding enter_wait wake_up stop
  take_turn at stops h = ok (stop h)
  take_turn testing tests h = ok (record h { place = if h.is_open then tested else ended })
  take_turn outside tests h = ok h
  take_turn tested tests h = ok h
  take_turn waiting tests h = ok h
  take_turn ended tests h = ok h
  take_turn tested enters h = enter_wait h.epoll h
  take_turn outside enters h = ok h
  take_turn testing enters h = ok h
  take_turn waiting enters h = ok h
  take_turn ended enters h = ok h
  take_turn waiting (wakes r) h = wake_up r h.epoll h
  take_turn outside (wakes r) h = ok h
  take_turn testing (wakes r) h = ok h
  take_turn tested (wakes r) h = ok h
  take_turn ended (wakes r) h = ok h

  unfoldable pub run_turns : List Turn → Handler K → Outcome (Handler K)
  unfolding take_turn
  run_turns [] h = ok h
  run_turns (t ∷ ts) h = do next ← take_turn h.place t h; run_turns ts next
