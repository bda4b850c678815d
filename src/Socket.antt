-- ===== src/Socket.antt =====
-- src/socket/socket.cpp and src/socket/server_socket.cpp, with their headers. The system calls are the
-- parameter `Kernel`: each takes the kernel's state on, and a result below 0 is `none` or false. The
-- conversion of addresses is theirs, and log messages are left out.
pub mod Lifetime
pub mod Opened
pub mod Sending
mod Tests
use calabash.Base.{
  ℕ, zero, suc, ◌*◌, ℤ, Bool, true, false, Option, none, some, Bytes, bit_or, Outcome, ok, fault,
  if◌then◌else◌,
}

-- What `setsockopt` is called with.
pub data SocketOption : Type 0 where
  send_buffer recv_buffer : ℕ → SocketOption
  linger : ℕ → ℕ → SocketOption
  keep_alive reuse_addr reuse_port : SocketOption

pub record Kernel (K : Type 0) : Type 0 where
  pub socket : K → Option ℕ × K
  pub bind_address : ℤ → Bytes → ℕ → K → Bool × K
  pub listen_on : ℤ → ℕ → K → Bool × K
  pub connect_to : ℤ → Bytes → ℕ → K → Bool × K
  pub close_fd : ℤ → K → K
  pub accept_on : ℤ → K → Option ℕ × K
  pub receive : ℤ → ℕ → K → Option Bytes × K
  pub send_to : ℤ → Bytes → K → Option ℕ × K
  pub get_flags : ℤ → K → Option ℕ × K
  pub set_flags : ℤ → ℕ → K → Bool × K
  pub set_option : ℤ → SocketOption → K → Bool × K
  pub non_block : ℕ

pub record Socket : Type 0 where
  pub ip : Bytes
  pub port : ℕ
  pub sockfd : ℤ

abbrev pub minus_one : ℤ
minus_one = ℤ.negsuc 0

-- `m_sockfd > 0`.
abbrev pub is_open : ℤ → Bool
is_open (ℤ.pos zero) = false
is_open (ℤ.pos (suc n)) = true
is_open (ℤ.negsuc n) = false

abbrev pub new_socket : Bytes → ℕ → Socket
new_socket ip port = record { ip = ip; port = port; sockfd = ℤ.pos 0 }

module _ {K : Type 0} (kernel : Kernel K) where
  -- What `set_non_blocking` does with the flags that it read.
  unfoldable pub with_flags : ℤ → Option ℕ × K → Bool × K
  with_flags fd (none, w) = (false, w)
  with_flags fd (some flags, w) = kernel.set_flags fd (bit_or flags kernel.non_block) w

  unfoldable pub set_non_blocking : Socket → K → Bool × K
  unfolding with_flags
  set_non_blocking s w = with_flags s.sockfd (kernel.get_flags s.sockfd w)

  abbrev pub set_option_of : SocketOption → Socket → K → Bool × K
  set_option_of option s w = kernel.set_option s.sockfd option w

  abbrev pub set_send_buffer : ℕ → Socket → K → Bool × K
  set_send_buffer size = set_option_of (send_buffer size)

  abbrev pub set_recv_buffer : ℕ → Socket → K → Bool × K
  set_recv_buffer size = set_option_of (recv_buffer size)

  abbrev pub set_linger : Bool → ℕ → Socket → K → Bool × K
  set_linger active seconds = set_option_of (linger (if active then 1 else 0) seconds)

  abbrev pub set_keep_alive : Socket → K → Bool × K
  set_keep_alive = set_option_of keep_alive

  abbrev pub set_reuse_addr : Socket → K → Bool × K
  set_reuse_addr = set_option_of reuse_addr

  abbrev pub set_reuse_port : Socket → K → Bool × K
  set_reuse_port = set_option_of reuse_port

  abbrev pub bind_socket : Bytes → ℕ → Socket → K → Bool × K
  bind_socket ip port s w = kernel.bind_address s.sockfd ip port w

  abbrev pub listen : ℕ → Socket → K → Bool × K
  listen backlog s w = kernel.listen_on s.sockfd backlog w

  abbrev pub connect : Bytes → ℕ → Socket → K → Bool × K
  connect ip port s w = kernel.connect_to s.sockfd ip port w

  unfoldable pub close : Socket → K → Socket × K
  close s w =
      if is_open s.sockfd
      then (record s { sockfd = ℤ.pos 0 }, kernel.close_fd s.sockfd w)
      else (s, w)

  -- A failure gives -1.
  abbrev pub accepted : Option ℕ × K → ℤ × K
  accepted (none, w) = (minus_one, w)
  accepted (some fd, w) = (ℤ.pos fd, w)

  abbrev pub accept : Socket → K → ℤ × K
  accept s w = accepted (kernel.accept_on s.sockfd w)

  abbrev pub recv : ℕ → Socket → K → Option Bytes × K
  recv len s w = kernel.receive s.sockfd len w

  -- The loop of `send`, with what the system call gave; each round takes one unit of fuel.
  pub retry : ℕ → ℤ → Bytes → Option ℕ × K → Outcome (ℕ × K)
  retry fuel fd buf (some size, w) = ok (size, w)
  retry zero fd buf (none, w) = fault
  retry (suc fuel) fd buf (none, w) = retry fuel fd buf (kernel.send_to fd buf w)

  pub send : ℕ → Bytes → Socket → K → Outcome (ℕ × K)
  unfolding retry
  send fuel buf s w = retry fuel s.sockfd buf (kernel.send_to s.sockfd buf w)

  -- The constructor of a `ServerSocket` behind the call of `socket`; no result is looked at.
  pub set_up : Bytes → ℕ → Socket → K → K
  unfolding set_non_blocking
  set_up ip port s w =
      let w1 = (set_non_blocking s w).1 in
      let w2 = (set_recv_buffer (10 * 1024) s w1).1 in
      let w3 = (set_send_buffer (10 * 1024) s w2).1 in
      let w4 = (set_linger true 0 s w3).1 in
      let w5 = (set_keep_alive s w4).1 in
      let w6 = (set_reuse_addr s w5).1 in
      let w7 = (bind_socket ip port s w6).1 in (listen 1024 s w7).1

  pub opened : Bytes → ℕ → Option ℕ × K → Socket × K
  unfolding set_up
  opened ip port (none, w) = (record (new_socket ip port) { sockfd = minus_one }, w)
  opened ip port (some fd, w) =
      let s = record (new_socket ip port) { sockfd = ℤ.pos fd } in (s, set_up ip port s w)

  unfoldable pub server_socket : Bytes → ℕ → K → Socket × K
  unfolding opened
  server_socket ip port w = opened ip port (kernel.socket w)

  -- The destructor of a `ServerSocket`: its own, then that of `Socket`.
  unfoldable pub destroy : Socket → K → Socket × K
  unfolding close
  destroy s w = let once = close s w in close once.0 once.1
