-- ===== src/SocketHandler.antt =====
-- src/socket/socket_handler.cpp, the one-shot registrations of src/socket/event_poller.cpp, and how
-- src/web/http_task.cpp gives a socket back. A socket is its slot in the object pool. `owned` are the
-- sockets that were handed to the thread pool and not given back. The server's own socket is always
-- registered and left out; what epoll reports is a list of events.
pub mod Ownership
pub mod Reachable
pub mod EventLoop
pub mod Holds
pub mod Descriptors
pub mod Serving
pub mod Epoll
pub mod Running
pub mod Stopping
pub mod Opening
pub mod Tests
use calabash.Base.{
  ℕ, ◌≡◌, ◌<◌, Bool, true, false, Option, none, some, List, [], ◌∷◌, ◌++◌, count, remove_one,
  if◌then◌else◌, Outcome, ok, throw, fault, ◌>>=◌,
}
use calabash.ObjectPool.{ObjectPool, allocate, delete, set_max_size}

-- The interest list: a one-shot registration is disarmed by the event that it reports.
pub record EventPoller : Type 0 where
  pub armed : List ℕ
  pub disarmed : List ℕ

pub record SocketHandler : Type 0 where
  pub poller : EventPoller
  pub pool : ObjectPool
  pub owned : List ℕ

-- `EPOLL_CTL_ADD` of a socket that is not registered.
abbrev pub add : ℕ → EventPoller → EventPoller
add socket e = record e { armed = socket ∷ e.armed }

-- `EPOLL_CTL_DEL` of a socket whose event was reported.
abbrev pub del : ℕ → EventPoller → EventPoller
del socket e = record e { disarmed = remove_one socket e.disarmed }

-- `epoll_wait` reports a socket.
abbrev pub report : ℕ → EventPoller → EventPoller
report socket e = record { armed = remove_one socket e.armed; disarmed = socket ∷ e.disarmed }

abbrev pub attach : ℕ → SocketHandler → SocketHandler
attach socket h = record h { poller = add socket h.poller }

abbrev pub detach : ℕ → SocketHandler → SocketHandler
detach socket h = record h { poller = del socket h.poller }

abbrev pub remove : ℕ → SocketHandler → SocketHandler
remove socket h = record h { pool = delete socket h.pool }

-- A reported event: on the server's socket, or on a connection with the first of the three flags that
-- the code tests.
pub data Event : Type 0 where
  connects : Event
  hangs_up : ℕ → Event
  fails : ℕ → Event
  is_readable : ℕ → Event
  is_other : ℕ → Event

-- What an accepted connection gets; with no socket left the loop is left.
pub place : Option ℕ × ObjectPool → SocketHandler → Bool × SocketHandler
place (none, pool) h = (false, record h { pool = pool })
place (some socket, pool) h = (true, attach socket (record h { pool = pool }))

-- One round of the loop over the events, and whether the loop goes on.
pub handle_event : Event → SocketHandler → Outcome (Bool × SocketHandler)
unfolding place
handle_event connects h = do given ← allocate h.pool; ok (place given h)
handle_event (hangs_up socket) h = ok (true, remove socket (detach socket h))
handle_event (fails socket) h = ok (true, remove socket (detach socket h))
handle_event (is_readable socket) h =
    let free = detach socket h in ok (true, record free { owned = socket ∷ free.owned })
handle_event (is_other socket) h = ok (true, h)

pub handle_events : List Event → SocketHandler → Outcome SocketHandler
unfolding handle_event
handle_events [] h = ok h
handle_events (event ∷ events) h = do
  (goes_on, next) ← handle_event event h
  let rest = handle_events events next
  if goes_on then rest else ok next

-- The end of a task on a socket: it is watched again if the request was read, else closed.
pub finish_task : Bool → ℕ → SocketHandler → SocketHandler
finish_task parsed socket h =
    let left = record h { owned = remove_one socket h.owned } in
    if parsed then attach socket left else remove socket left

-- The socket that an event speaks of was reported.
abbrev pub IsReported : Event → SocketHandler → Type 0
IsReported connects h = Unit
IsReported (hangs_up socket) h = 0 < count socket h.poller.disarmed
IsReported (fails socket) h = 0 < count socket h.poller.disarmed
IsReported (is_readable socket) h = 0 < count socket h.poller.disarmed
IsReported (is_other socket) h = 0 < count socket h.poller.disarmed

-- What the event loop, the kernel and the threads of tasks do.
pub data Step (h : SocketHandler) : SocketHandler → Type 0 where
  reports :
      (socket : ℕ)
      → 0 < count socket h.poller.armed
      → Step h (record h { poller = report socket h.poller })
  handles :
      {goes_on : Bool} {k : SocketHandler}
      → (event : Event) → IsReported event h
      → handle_event event h ≡ ok (goes_on, k)
      → Step h k
  finishes :
      (parsed : Bool) (socket : ℕ) → 0 < count socket h.owned → Step h (finish_task parsed socket h)

pub data Reach (h : SocketHandler) : SocketHandler → Type 0 where
  here : Reach h h
  next : {k l : SocketHandler} → Reach h k → Step k l → Reach h l
