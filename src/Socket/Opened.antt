-- ===== src/Socket/Opened.antt =====
-- The descriptors that are open, over the calls of a socket.
use calabash.Base.{
  Bytes, ℕ, zero, suc, ◌+◌, ◌≡◌, ◌<◌, ◌≤◌, refl, ℤ, Option, none, some, List, [], ◌∷◌, count, same,
  arith, ◌∙◌,
}
use calabash.Socket
use calabash.Socket.Lifetime.{destroy-close}
use calabash.Socket.{
  SocketOption, set_up, server_socket, destroy, Kernel, Socket, accept, accepted, close,
  set_non_blocking, with_flags,
}

-- An open descriptor of a socket.
abbrev pub descriptors : ℤ → List ℕ
descriptors (ℤ.pos zero) = []
descriptors (ℤ.pos (suc n)) = suc n ∷ []
descriptors (ℤ.negsuc n) = []

-- What a kernel documents of its open descriptors: a new one is the lowest that is not open, so that it
-- is not 0 while 0 is open.
pub record FdLaws {K : Type 0} (kernel : Kernel K) (opened : K → List ℕ) : Type 0 where
  pub accept_on :
      (a n : ℕ) (fd : ℤ) (w v : K)
      → kernel.accept_on fd w ≡ (some n, v)
      → (0 < count 0 (opened w) → 0 < n) × (count a (opened v) ≡ same a n + count a (opened w))
  pub refuse :
      (a : ℕ) (fd : ℤ) (w v : K)
      → kernel.accept_on fd w ≡ (none, v)
      → count a (opened v) ≡ count a (opened w)
  pub close_fd :
      (a n : ℕ) (w : K)
      → 0 < count n (opened w)
      → count a (opened (kernel.close_fd (ℤ.pos n) w)) + same a n ≡ count a (opened w)
  pub get_flags :
      (a : ℕ) (fd : ℤ) (w : K) → count a (opened (kernel.get_flags fd w).1) ≡ count a (opened w)
  pub set_flags :
      (a flags : ℕ) (fd : ℤ) (w : K)
      → count a (opened (kernel.set_flags fd flags w).1) ≡ count a (opened w)

module _ {K : Type 0} (kernel : Kernel K) (opened : K → List ℕ) (laws : FdLaws kernel opened) where
  with_flags-opened :
      (a : ℕ) (fd : ℤ) (r : Option ℕ × K)
      → count a (opened (with_flags kernel fd r).1) ≡ count a (opened r.1)
  unfolding with_flags
  with_flags-opened a fd (none, w) = refl
  with_flags-opened a fd (some flags, w) = laws.set_flags a _ fd w

  pub set_non_blocking-opened :
      (a : ℕ) (s : Socket) (w : K)
      → count a (opened (set_non_blocking kernel s w).1) ≡ count a (opened w)
  unfolding set_non_blocking
  set_non_blocking-opened a s w =
      with_flags-opened a s.sockfd (kernel.get_flags s.sockfd w) ∙ laws.get_flags a s.sockfd w

  accepted-opened :
      (a : ℕ) (fd : ℤ) (w : K) (r : Option ℕ × K)
      → 0 < count 0 (opened w)
      → kernel.accept_on fd w ≡ r
      → (let t = accepted kernel r in
          count a (opened t.1) ≡ count a (descriptors t.0) + count a (opened w))
  unfolding count
  accepted-opened a fd w (none, v) std e = omega (arith, laws.refuse a fd w v e)
  accepted-opened a fd w (some zero, v) std e =
      absurd (omega (arith, (laws.accept_on a 0 fd w v e).0 std))
  accepted-opened a fd w (some (suc n), v) std e =
      omega (arith, (laws.accept_on a (suc n) fd w v e).1)

  -- While 0 is open, an accepted descriptor is new among the open ones.
  pub accept-opened :
      (a : ℕ) (s : Socket) (w : K)
      → 0 < count 0 (opened w)
      → (let r = accept kernel s w in
          count a (opened r.1) ≡ count a (descriptors r.0) + count a (opened w))
  accept-opened a s w std = accepted-opened a s.sockfd w (kernel.accept_on s.sockfd w) std refl

  closed-opened :
      (a : ℕ) (s : Socket) (w : K) (fd : ℤ)
      → s.sockfd ≡ fd
      → ((n : ℕ) → count n (descriptors fd) ≤ count n (opened w))
      → (count a (opened (close kernel s w).1) + count a (descriptors fd) ≡ count a (opened w))
        × (descriptors (close kernel s w).0.sockfd ≡ [])
  unfolding close count
  closed-opened a s w (ℤ.pos zero) e held = rw e (omega arith, refl)
  closed-opened a s w (ℤ.pos (suc n)) e held =
      rw e (omega (arith, laws.close_fd a (suc n) w (ground (arith, held (suc n)))), refl)
  closed-opened a s w (ℤ.negsuc n) e held = rw e (omega arith, refl)

  -- Closing a socket whose descriptor is open takes it from the open ones.
  pub close-opened :
      (a : ℕ) (s : Socket) (w : K)
      → ((n : ℕ) → count n (descriptors s.sockfd) ≤ count n (opened w))
      → (count a (opened (close kernel s w).1) + count a (descriptors s.sockfd)
          ≡ count a (opened w))
        × (descriptors (close kernel s w).0.sockfd ≡ [])
  close-opened a s w held = closed-opened a s w s.sockfd refl held

-- What a kernel documents of the calls that a server's socket is made with.
pub record OpenLaws {K : Type 0} (kernel : Kernel K) (opened : K → List ℕ) : Type 0 where
  pub open_fd :
      (a n : ℕ) (w v : K)
      → kernel.socket w ≡ (some n, v)
      → (0 < count 0 (opened w) → 0 < n) × (count a (opened v) ≡ same a n + count a (opened w))
  pub no_fd :
      (a : ℕ) (w v : K) → kernel.socket w ≡ (none, v) → count a (opened v) ≡ count a (opened w)
  pub bind_address :
      (a port : ℕ) (fd : ℤ) (ip : Bytes) (w : K)
      → count a (opened (kernel.bind_address fd ip port w).1) ≡ count a (opened w)
  pub listen_on :
      (a n : ℕ) (fd : ℤ) (w : K) → count a (opened (kernel.listen_on fd n w).1) ≡ count a (opened w)
  pub set_option :
      (a : ℕ) (fd : ℤ) (option : SocketOption) (w : K)
      → count a (opened (kernel.set_option fd option w).1) ≡ count a (opened w)

module _ {K : Type 0} (kernel : Kernel K) (opened : K → List ℕ) (laws : FdLaws kernel opened)
    (more : OpenLaws kernel opened) where
  set_up-opened :
      (a port : ℕ) (ip : Bytes) (s : Socket) (w : K)
      → count a (opened (set_up kernel ip port s w)) ≡ count a (opened w)
  unfolding set_up
  set_up-opened a port ip s w =
      more.listen_on a 1024 s.sockfd _
      ∙ more.bind_address a port s.sockfd ip _
      ∙ more.set_option a s.sockfd _ _
      ∙ more.set_option a s.sockfd _ _
      ∙ more.set_option a s.sockfd _ _
      ∙ more.set_option a s.sockfd _ _
      ∙ more.set_option a s.sockfd _ _
      ∙ set_non_blocking-opened kernel opened laws a s w

  opened-opened :
      (a port : ℕ) (ip : Bytes) (w : K) (r : Option ℕ × K)
      → 0 < count 0 (opened w)
      → kernel.socket w ≡ r
      → (let made = Socket.opened kernel ip port r in
          count a (opened made.1) ≡ count a (descriptors made.0.sockfd) + count a (opened w))
  unfolding Socket.opened count
  opened-opened a port ip w (none, v) std e = omega (arith, more.no_fd a w v e)
  opened-opened a port ip w (some zero, v) std e =
      absurd (omega (arith, (more.open_fd a 0 w v e).0 std))
  opened-opened a port ip w (some (suc n), v) std e =
      omega (arith, (more.open_fd a (suc n) w v e).1, set_up-opened a port ip _ v)

  -- A server's socket opens its descriptor and no other.
  pub server_socket-opened :
      (a port : ℕ) (ip : Bytes) (w : K)
      → 0 < count 0 (opened w)
      → (let made = server_socket kernel ip port w in
          count a (opened made.1) ≡ count a (descriptors made.0.sockfd) + count a (opened w))
  unfolding server_socket
  server_socket-opened a port ip w std = opened-opened a port ip w (kernel.socket w) std refl

  -- Its destructor closes it.
  pub destroy-opened :
      (a : ℕ) (s : Socket) (w : K)
      → ((n : ℕ) → count n (descriptors s.sockfd) ≤ count n (opened w))
      → count a (opened (destroy kernel s w).1) + count a (descriptors s.sockfd)
        ≡ count a (opened w)
  destroy-opened a s w held =
      rw (destroy-close kernel s w).1 (close-opened kernel opened laws a s w held).0
