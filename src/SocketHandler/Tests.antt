-- ===== src/SocketHandler/Tests.antt =====
-- The theorems at a handler with a pool of two sockets.
pub mod OnDescriptors
mod OnPolling
use calabash.Base.{◌≡◌, ◌+◌, ◌≤◌, refl, [], ◌∷◌, ok, count, arith}
use calabash.ObjectPool.{allocate, is_full, take_idle}
use calabash.SocketHandler.{
  SocketHandler, connects, is_readable, place, handle_event, handle_events, handles, Reach, here,
  next,
}
use calabash.SocketHandler.Ownership.{IsOwned}
use calabash.SocketHandler.Reachable.{Reach-exclusive, handle_events-dropped, others}

abbrev pub start : SocketHandler
start = record {
  poller = record { armed = []; disarmed = [] };
  pool = record {
    all_memory = 2 ∷ [];
    idle_objs = 1 ∷ 0 ∷ [];
    block_size = 2;
    max_size = 1;
    now_size = 0;
  };
  owned = [];
}

-- Socket 1 is watched.
abbrev pub connected : SocketHandler
connected = record {
  poller = record { armed = 1 ∷ []; disarmed = [] };
  pool = record {
    all_memory = 2 ∷ [];
    idle_objs = 0 ∷ [];
    block_size = 2;
    max_size = 1;
    now_size = 1;
  };
  owned = [];
}

pub start-IsOwned : IsOwned start
unfolding count
start-IsOwned = record {
  pool_inv = record { once = λ a. ground arith; counted = refl; filled = refl };
  room = omega arith;
}

connected-Reach : Reach start connected
unfolding handle_event place allocate is_full take_idle
connected-Reach = next here (handles connects tt refl)

Reach-exclusive_example :
    count 1 connected.pool.idle_objs
      + (count 1 connected.poller.armed
          + count 1 connected.poller.disarmed
          + count 1 connected.owned)
    ≤ 1
Reach-exclusive_example = Reach-exclusive 1 start-IsOwned connected-Reach
