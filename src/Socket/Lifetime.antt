-- ===== src/Socket/Lifetime.antt =====
-- A descriptor is closed once.
use calabash.Base.{
  ℕ, zero, suc, ◌≡◌, refl, ℤ, true, false, Option, none, some, Bytes, if◌then◌else◌, Bool-cases,
  inl, inr,
}
use calabash.Socket.{
  Kernel, Socket, is_open, close, destroy, new_socket, server_socket, opened, set_up,
}

module _ {K : Type 0} (kernel : Kernel K) where
  close-open :
      (s : Socket) (w : K)
      → is_open s.sockfd ≡ true
      → close kernel s w ≡ (record s { sockfd = ℤ.pos 0 }, kernel.close_fd s.sockfd w)
  unfolding close
  close-open s w e = rw e refl

  close-shut : (s : Socket) (w : K) → is_open s.sockfd ≡ false → close kernel s w ≡ (s, w)
  unfolding close
  close-shut s w e = rw e refl

  -- The destructor closes an open descriptor once and no other, and so do further calls of `close`
  -- before it: the state is that after one call.
  pub destroy-close :
      (s : Socket) (w : K)
      → (let once = close kernel s w in destroy kernel once.0 once.1 ≡ once)
        × (destroy kernel s w ≡ close kernel s w)
        × ((close kernel s w).1 ≡ (if is_open s.sockfd then kernel.close_fd s.sockfd w else w))
  unfolding destroy
  destroy-close s w = elim (Bool-cases (is_open s.sockfd)) [
    | inl e ↦
        let t = record s { sockfd = ℤ.pos 0 } in
        let v = kernel.close_fd s.sockfd w in
        let done = close-shut t v refl in
        rw (close-open s w e, done) (rw (e, done) (refl, refl, refl))
    | inr e ↦ let done = close-shut s w e in rw (done, done) (rw e (refl, refl, refl))
  ]

  -- The life of a server's socket, from its constructor to its destructor: where the kernel gives no
  -- descriptor nothing else is called; otherwise the socket is set up, bound and made to listen with
  -- that descriptor, which is closed once at the end, unless it is 0, which is never closed.
  pub server_socket-destroy :
      (ip : Bytes) (port : ℕ) (w v : K) (fd : Option ℕ)
      → kernel.socket w ≡ (fd, v)
      → (let made = server_socket kernel ip port w in (destroy kernel made.0 made.1).1) ≡ elim fd [
        | none ↦ v
        | some zero ↦ set_up kernel ip port (new_socket ip port) v
        | some (suc n) ↦
            kernel.close_fd
              (ℤ.pos (suc n))
              (set_up kernel ip port (record (new_socket ip port) { sockfd = ℤ.pos (suc n) }) v)
      ]
  unfolding server_socket opened destroy close
  server_socket-destroy ip port w v none e = rw e refl
  server_socket-destroy ip port w v (some zero) e = rw e refl
  server_socket-destroy ip port w v (some (suc n)) e = rw e refl
