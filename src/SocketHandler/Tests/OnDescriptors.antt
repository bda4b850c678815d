-- ===== src/SocketHandler/Tests/OnDescriptors.antt =====
-- The event loop with descriptors on a kernel that is the list of its open descriptors.
use calabash.Base.{
  ℕ, suc, ◌+◌, ◌≡◌, ◌<◌, refl, ℤ, true, false, none, some, List, [], ◌∷◌, Bytes, count,
  count-remove_one, remove_one, length, ok, arith,
}
use calabash.Socket.{Kernel, set_non_blocking, new_socket, with_flags}
use calabash.Socket.Opened.{FdLaws}
use calabash.ObjectPool.{allocate, is_full, take_idle}
use calabash.SocketHandler.{connects}
use calabash.SocketHandler.Ownership.{IsOwned}
use calabash.SocketHandler.Holds.{holds}
use calabash.SocketHandler.EventLoop.{EventLoop, Run, here, next, handles, serve_event, put_socket}
use calabash.SocketHandler.Serving.{Run-opened, refused-opened}
use calabash.SocketHandler.Tests.{start, start-IsOwned}

abbrev pub close_one : ℤ → List ℕ → List ℕ
close_one (ℤ.pos n) w = remove_one n w
close_one (ℤ.negsuc n) w = w

abbrev pub kernel : Kernel (List ℕ)
kernel = record {
  socket = λ w. (some 3, 3 ∷ w);
  bind_address = λ fd ip port w. (true, w);
  listen_on = λ fd n w. (true, w);
  connect_to = λ fd ip port w. (true, w);
  close_fd = close_one;
  accept_on = λ fd w. (some (suc (length w)), suc (length w) ∷ w);
  receive = λ fd n w. (none, w);
  send_to = λ fd buf w. (none, w);
  get_flags = λ fd w. (some 0, w);
  set_flags = λ fd flags w. (true, w);
  set_option = λ fd option w. (true, w);
  non_block = 2048;
}

abbrev pub opened : List ℕ → List ℕ
opened w = w

pub kernel-FdLaws : FdLaws kernel opened
unfolding count
kernel-FdLaws = record {
  accept_on = λ a n fd w v e.
      let m : suc (length w) ≡ n = cc in
      let r : suc (length w) ∷ w ≡ v = cc in (λ std. omega (arith, m), rw (← r) (rw (← m) refl));
  refuse = λ a fd w v e. absurd (cc);
  close_fd = λ a n w h. count-remove_one a n w h;
  get_flags = λ a fd w. refl;
  set_flags = λ a flags fd w. refl;
}

abbrev pub peer : List ℕ → Bytes
peer w = []

abbrev pub idle_loop : EventLoop (List ℕ)
idle_loop = record {
  handler = start;
  server = record { ip = []; port = 80; sockfd = ℤ.pos 3 };
  sockets = λ slot. new_socket [] 0;
  kernel = 3 ∷ 2 ∷ 0 ∷ [];
}

-- Descriptor 4 is accepted into slot 1.
abbrev one_client : EventLoop (List ℕ)
one_client = record {
  handler = record {
    poller = record { armed = 1 ∷ []; disarmed = [] };
    pool = record {
      all_memory = 2 ∷ [];
      idle_objs = 0 ∷ [];
      block_size = 2;
      max_size = 1;
      now_size = 1;
    };
    owned = [];
  };
  server = record { ip = []; port = 80; sockfd = ℤ.pos 3 };
  sockets = put_socket 1 (record { ip = []; port = 0; sockfd = ℤ.pos 4 }) (λ slot. new_socket [] 0);
  kernel = 4 ∷ 3 ∷ 2 ∷ 0 ∷ [];
}

one_run : Run kernel peer idle_loop [] one_client
unfolding serve_event allocate is_full take_idle set_non_blocking with_flags
one_run = next here (handles connects tt refl)

none_held :
    (n : ℕ) → count n (3 ∷ 2 ∷ 0 ∷ []) ≡ count n (3 ∷ 2 ∷ 0 ∷ []) + holds n idle_loop.sockets []
unfolding holds
none_held n = omega arith

pub zero_open : 0 < count 0 (3 ∷ 2 ∷ 0 ∷ [])
unfolding count
zero_open = omega arith

Run-opened_example :
    count 4 one_client.kernel
    ≡ count 4 [] + count 4 (3 ∷ 2 ∷ 0 ∷ []) + holds 4 one_client.sockets (1 ∷ [])
Run-opened_example =
    Run-opened kernel peer opened kernel-FdLaws (3 ∷ 2 ∷ 0 ∷ []) 4 zero_open start-IsOwned none_held
      one_run

one_client-IsOwned : IsOwned one_client.handler
unfolding count
one_client-IsOwned = record {
  pool_inv = record { once = λ a. ground arith; counted = refl; filled = refl };
  room = omega arith;
}

one_held :
    (n : ℕ)
    → count n (4 ∷ 3 ∷ 2 ∷ 0 ∷ []) ≡ count n (3 ∷ 2 ∷ 0 ∷ []) + holds n one_client.sockets (1 ∷ [])
unfolding holds count
one_held n = omega arith

refused-opened_example :
    (serve_event kernel peer connects one_client
      ≡ ok (false, record one_client { kernel = 5 ∷ 4 ∷ 3 ∷ 2 ∷ 0 ∷ [] }))
    × (0 < count 5 (5 ∷ 4 ∷ 3 ∷ 2 ∷ 0 ∷ []))
unfolding is_full
refused-opened_example =
    refused-opened kernel peer opened kernel-FdLaws (3 ∷ 2 ∷ 0 ∷ []) 5 (5 ∷ 4 ∷ 3 ∷ 2 ∷ 0 ∷ [])
      zero_open one_client-IsOwned one_held refl refl here
