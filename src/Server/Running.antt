-- ===== src/Server/Running.antt =====
-- The life of a server: the configuration, `Start` and `Stop`, of src/web/server.cpp. One thread is in
-- `Start` while another calls `Stop`; the turns of the loop say how they meet.
use calabash.Base.{
  ℕ, Bool, true, false, ◌&&◌, is_empty, if◌then◌else◌, List, Option, none, some, Bytes, codes,
  Outcome, ok, fault, ◌>>=◌,
}
use calabash.Socket.{Kernel}
use calabash.ThreadPool.{ThreadPool}
use calabash.ThreadPool
use calabash.SocketHandler.EventLoop.{EventLoop}
use calabash.SocketHandler.Epoll.{EpollCalls}
use calabash.SocketHandler.Running.{
  Place, outside, testing, tested, waiting, ended, Turn, Handler, listen_at, begin_handle,
  run_turns, stop,
}
use calabash.SocketHandler.Opening.{new_handler, destroy_handler}

pub record ServerConfig : Type 0 where
  pub ip : Bytes
  pub port : ℕ
  pub threads : ℕ
  pub connects : ℕ
  pub wait_time : ℕ

abbrev pub default_config : ServerConfig
default_config = record {
  ip = codes "0.0.0.0";
  port = 8080;
  threads = 30;
  connects = 100;
  wait_time = 5000;
}

-- `loop` is what outlives a handler, while there is none.
pub record Running (K : Type 0) : Type 0 where
  pub config : ServerConfig
  pub thread_pool : Option ThreadPool
  pub socket_handler : Option (Handler K)
  pub loop : EventLoop K

-- Before the loop of `handle`, and behind it.
abbrev pub is_over : Place → Bool
is_over outside = true
is_over ended = true
is_over testing = false
is_over tested = false
is_over waiting = false

module _ {K : Type 0} (kernel : Kernel K) (calls : EpollCalls K) (peer : K → Bytes) where
  abbrev pub new_server : ServerConfig → EventLoop K → Running K
  new_server config l = record {
    config = config;
    thread_pool = none;
    socket_handler = none;
    loop = l;
  }

  abbrev pub listen : Bytes → ℕ → Running K → Running K
  listen ip port s = record s { config = record s.config { ip = ip; port = port } }

  abbrev pub set_threads : ℕ → Running K → Running K
  set_threads n s = record s { config = record s.config { threads = n } }

  abbrev pub set_connects : ℕ → Running K → Running K
  set_connects n s = record s { config = record s.config { connects = n } }

  abbrev pub set_wait_time : ℕ → Running K → Running K
  set_wait_time n s = record s { config = record s.config { wait_time = n } }

  -- How far `Start` comes in these turns of its thread, and of others; it returns once the loop of
  -- its handler has ended.
  unfoldable pub start : List Turn → Running K → Outcome (Running K)
  start turns s = do
    let pool = ThreadPool.make s.config.threads
    let h = listen_at kernel calls peer s.config.ip s.config.port (new_handler s.loop)
    begun ← begin_handle kernel calls peer s.config.connects h
    served ← run_turns kernel calls peer turns begun
    ok (record s { thread_pool = some pool; socket_handler = some served })

  -- Neither the loop nor a task is still to read the handler.
  abbrev pub is_unused : Handler K → Bool
  is_unused h = is_over h.place && is_empty h.loop.handler.owned

  -- `turns`: what the loop does between the two statements. Destroying a handler that its loop or a
  -- task still reads is undefined.
  unfoldable pub stop_handler : List Turn → Option (Handler K) → Running K → Outcome (Running K)
  stop_handler turns none s = fault
  stop_handler turns (some h) s = do
    left ← run_turns kernel calls peer turns (stop kernel calls peer h)
    if is_unused left
        then ok (record s {
          thread_pool = none;
          socket_handler = none;
          loop = destroy_handler kernel calls peer left;
        })
        else fault

  -- `Stop`, which destroys the handler.
  unfoldable pub stop_server : List Turn → Running K → Outcome (Running K)
  unfolding stop_handler
  stop_server turns s = stop_handler turns s.socket_handler s
