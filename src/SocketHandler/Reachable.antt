-- ===== src/SocketHandler/Reachable.antt =====
-- What holds whatever the kernel reports and in whatever order the threads take their steps.
use calabash.Base.{
  ℕ, ◌≡◌, ◌+◌, ◌≤◌, ◌<◌, refl, sym, subst, Bool, true, false, Option, none, some, List, [], ◌∷◌,
  ◌++◌, arith, count, Outcome, ok, throw, fault, ◌>>=◌,
}
use calabash.ObjectPool.{ObjectPool, total, no_limit, is_full, allocate}
use calabash.ObjectPool.Invariant.{allocate-full}
use calabash.SocketHandler.{
  SocketHandler, Event, connects, hangs_up, fails, is_readable, is_other, place, handle_event,
  handle_events, finish_task, IsReported, Step, reports, handles, finishes, Reach, here, next,
}
use calabash.SocketHandler.Ownership.{
  in_use, IsOwned, Kept, allocate-Kept, count-in_use, report-IsOwned, dispatch-IsOwned,
  return-IsOwned, closed-IsOwned, dropped-IsOwned,
}

-- If the round returns, what it leaves is sound.
LeavesOwned : Outcome (Bool × SocketHandler) → Type 0
LeavesOwned (ok (goes_on, k)) = IsOwned k
LeavesOwned (throw e) = Unit
LeavesOwned fault = Unit

place-LeavesOwned :
    (h : SocketHandler) (given : Outcome (Option ℕ × ObjectPool))
    → IsOwned h
    → Kept h.pool (in_use h) given
    → LeavesOwned (given >>= λ g. ok (place g h))
unfolding LeavesOwned Kept place
place-LeavesOwned h (ok (none, q)) v kept =
    subst (λ r. IsOwned (record h { pool = r })) (sym kept) v
place-LeavesOwned h (ok (some a, q)) v (kept, memory) = record {
  pool_inv = kept;
  room = subst (λ m. total m < no_limit) (sym memory) v.room;
}
place-LeavesOwned h (throw e) v kept = tt
place-LeavesOwned h fault v kept = tt

handle_event-LeavesOwned :
    (event : Event) (h : SocketHandler)
    → IsOwned h
    → IsReported event h
    → LeavesOwned (handle_event event h)
unfolding LeavesOwned handle_event
handle_event-LeavesOwned connects h v reported =
    place-LeavesOwned h (allocate h.pool) v (allocate-Kept h.pool (in_use h) v.pool_inv v.room)
handle_event-LeavesOwned (hangs_up s) h v reported = closed-IsOwned h v s reported
handle_event-LeavesOwned (fails s) h v reported = closed-IsOwned h v s reported
handle_event-LeavesOwned (is_readable s) h v reported = dispatch-IsOwned h v s reported
handle_event-LeavesOwned (is_other s) h v reported = v

finish_task-IsOwned :
    (parsed : Bool) (s : ℕ) (h : SocketHandler)
    → IsOwned h
    → 0 < count s h.owned
    → IsOwned (finish_task parsed s h)
unfolding finish_task
finish_task-IsOwned true s h v there = return-IsOwned h v s there
finish_task-IsOwned false s h v there = dropped-IsOwned h v s there

pub Step-IsOwned : {h k : SocketHandler} → Step h k → IsOwned h → IsOwned k
unfolding LeavesOwned
Step-IsOwned {h = h} (reports s there) v = report-IsOwned h v s there
Step-IsOwned {h = h} (handles event reported e) v =
    subst LeavesOwned e (handle_event-LeavesOwned event h v reported)
Step-IsOwned {h = h} (finishes parsed s there) v = finish_task-IsOwned parsed s h v there

pub Reach-IsOwned : {h k : SocketHandler} → Reach h k → IsOwned h → IsOwned k
Reach-IsOwned here v = v
Reach-IsOwned (next run step) v = Step-IsOwned step (Reach-IsOwned run v)

-- From a state in which every socket in use is at one place, in whatever order events are reported
-- and handled and tasks end, a socket is at no more than one of four places: idle in the pool,
-- watched, reported and not yet handled, or with one task.
pub Reach-exclusive :
    {h k : SocketHandler} (s : ℕ)
    → IsOwned h
    → Reach h k
    → count s k.pool.idle_objs
        + (count s k.poller.armed + count s k.poller.disarmed + count s k.owned)
      ≤ 1
Reach-exclusive {h} {k} s v run =
    let kept = Reach-IsOwned run v in
    ground (arith, kept.pool_inv.once s, count-in_use k.poller.armed k.poller.disarmed k.owned s)

-- Events that need no work.
unfoldable pub others : List ℕ → List Event
others [] = []
others (s ∷ sockets) = is_other s ∷ others sockets

-- With the limit of the pool reached, a connection ends the round: the events behind it are dropped,
-- and their sockets, whose registrations are used up, stay disarmed.
pub handle_events-dropped :
    (before : List ℕ) (h : SocketHandler) (events : List Event)
    → is_full h.pool ≡ true
    → handle_events (others before ++ connects ∷ events) h ≡ ok h
unfolding handle_events handle_event place others
handle_events-dropped [] h events full = rw (allocate-full h.pool full) refl
handle_events-dropped (s ∷ before) h events full = handle_events-dropped before h events full
