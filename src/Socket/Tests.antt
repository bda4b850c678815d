-- ===== src/Socket/Tests.antt =====
-- A kernel that counts: its state is the number of calls, descriptors are 3, and a send is refused
-- while the count is below 2.
use calabash.Base.{
  [], ℕ, ◌+◌, ◌≡◌, ltb, true, ℤ, none, some, codes, length, if◌then◌else◌, ok, arith,
}
use calabash.Socket.{Kernel, Socket, send}
use calabash.Socket.Sending.{send-Takes, takes, refuses}

abbrev counting : Kernel ℕ
counting = record {
  socket = λ w. (some 3, w + 1);
  bind_address = λ fd ip port w. (true, w + 1);
  listen_on = λ fd n w. (true, w + 1);
  connect_to = λ fd ip port w. (true, w + 1);
  close_fd = λ fd w. w + 100;
  accept_on = λ fd w. (none, w + 1);
  receive = λ fd n w. (none, w + 1);
  send_to = λ fd buf w. (if ltb w 2 then none else some (length buf), w + 1);
  get_flags = λ fd w. (some 0, w + 1);
  set_flags = λ fd n w. (true, w + 1);
  set_option = λ fd o w. (true, w + 1);
  non_block = 2048;
}

-- The peer has reset its connections.
abbrev reset_kernel : Kernel ℕ
reset_kernel = record counting { send_to = λ fd buf w. (none, w) }

abbrev connected : Socket
connected = record { ip = []; port = 80; sockfd = ℤ.pos 5 }

send-Takes_example : send counting 4 (codes "ab") connected 0 ≡ ok (2, 3)
send-Takes_example =
    send-Takes counting 4 2 2 (codes "ab") connected 0 3
      (refuses 1 2 1 3 (refuses 0 2 2 3 (takes 2 3))) (omega arith)
