-- ===== src/SocketHandler/EventLoop.antt =====
-- src/socket/socket_handler.cpp with the descriptors of the sockets: what the event loop and the end of
-- a task do to the kernel beside what they do to the pool and the poller.
use calabash.Base.{
  ℕ, ◌≡◌, ◌<◌, ◌++◌, ℤ, Bool, true, false, Option, none, some, List, [], ◌∷◌, Bytes, count,
  remove_one, ◌==◌, if◌then◌else◌, Outcome, ok, ◌>>=◌,
}
use calabash.Socket.{new_socket, Kernel, Socket, accept, close, set_non_blocking}
use calabash.Socket.Opened.{descriptors}
use calabash.ObjectPool.{ObjectPool, allocate, is_full}
use calabash.SocketHandler.{
  SocketHandler, Event, connects, hangs_up, fails, is_readable, is_other, IsReported, attach,
  detach, remove, report,
}

-- `sockets`: the object in each slot of the pool.
pub record EventLoop (K : Type 0) : Type 0 where
  pub handler : SocketHandler
  pub server : Socket
  pub sockets : ℕ → Socket
  pub kernel : K

abbrev pub put_socket : ℕ → Socket → (ℕ → Socket) → ℕ → Socket
put_socket slot s sockets other = if slot == other then s else sockets other

-- `peer`: the address that the last call of `accept` wrote, as a text.
module _ {K : Type 0} (kernel : Kernel K) (peer : K → Bytes) where
  -- What an accepted descriptor gets.
  unfoldable pub settle : ℤ → Option ℕ × ObjectPool → EventLoop K → Bool × EventLoop K
  settle fd (none, pool) l = (false, record l { handler = record l.handler { pool = pool } })
  settle fd (some slot, pool) l =
      let made = record (new_socket [] 0) { ip = peer l.kernel; sockfd = fd } in
      (
        true,
        record l {
          handler = attach slot (record l.handler { pool = pool });
          sockets = put_socket slot made l.sockets;
          kernel = (set_non_blocking kernel made l.kernel).1;
        },
      )

  unfoldable pub accept_one : EventLoop K → Outcome (Bool × EventLoop K)
  unfolding settle
  accept_one l = do
    let (fd, w) = accept kernel l.server l.kernel
    given ← allocate l.handler.pool
    ok (settle fd given (record l { kernel = w }))

  -- `SocketHandler::remove`.
  unfoldable pub remove_socket : ℕ → EventLoop K → EventLoop K
  remove_socket slot l =
      let (s, w) = close kernel (l.sockets slot) l.kernel in
      record l {
        handler = remove slot l.handler;
        sockets = put_socket slot s l.sockets;
        kernel = w;
      }

  abbrev pub detach_socket : ℕ → EventLoop K → EventLoop K
  detach_socket slot l = record l { handler = detach slot l.handler }

  unfoldable pub serve_event : Event → EventLoop K → Outcome (Bool × EventLoop K)
  unfolding accept_one remove_socket
  serve_event connects l = accept_one l
  serve_event (hangs_up slot) l = ok (true, remove_socket slot (detach_socket slot l))
  serve_event (fails slot) l = ok (true, remove_socket slot (detach_socket slot l))
  serve_event (is_readable slot) l =
      let free = detach slot l.handler in
      ok (true, record l { handler = record free { owned = slot ∷ free.owned } })
  serve_event (is_other slot) l = ok (true, l)

  -- The end of a task.
  unfoldable pub end_task : Bool → ℕ → EventLoop K → EventLoop K
  unfolding remove_socket
  end_task parsed slot l =
      let left = record l.handler { owned = remove_one slot l.handler.owned } in
      if parsed
      then record l { handler = attach slot left }
      else remove_socket slot (record l { handler = left })

  -- The descriptor that an event leaves without a socket: one accepted while the pool is full.
  abbrev pub lost_by : Event → EventLoop K → List ℕ
  lost_by connects l =
      if is_full l.handler.pool then descriptors (accept kernel l.server l.kernel).0 else []
  lost_by (hangs_up slot) l = []
  lost_by (fails slot) l = []
  lost_by (is_readable slot) l = []
  lost_by (is_other slot) l = []

  -- The steps of the loop, the kernel and the tasks, with the descriptors that they leave.
  pub data Step (l : EventLoop K) : List ℕ → EventLoop K → Type 0 where
    reports :
        (slot : ℕ)
        → 0 < count slot l.handler.poller.armed
        → Step l []
            (record l { handler = record l.handler { poller = report slot l.handler.poller } })
    handles :
        {goes_on : Bool} {k : EventLoop K} (event : Event)
        → IsReported event l.handler
        → serve_event event l ≡ ok (goes_on, k)
        → Step l (lost_by event l) k
    finishes :
        (parsed : Bool) (slot : ℕ)
        → 0 < count slot l.handler.owned
        → Step l [] (end_task parsed slot l)

  pub data Run (l : EventLoop K) : List ℕ → EventLoop K → Type 0 where
    here : Run l [] l
    next :
        {k m : EventLoop K} {lost more : List ℕ}
        → Run l lost k
        → Step k more m
        → Run l (more ++ lost) m
