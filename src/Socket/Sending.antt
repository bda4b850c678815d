-- ===== src/Socket/Sending.antt =====
-- The retries of `Socket::send`.
use calabash.Base.{ℕ, zero, suc, ◌≡◌, ◌≤◌, refl, ℤ, Option, none, some, Bytes, ok, fault, arith}
use calabash.Socket.{Kernel, Socket, retry, send}

module _ {K : Type 0} (kernel : Kernel K) where
  -- The system call refuses that many times, and then takes some bytes.
  pub data Takes (fd : ℤ) (buf : Bytes) : ℕ → Option ℕ × K → ℕ → K → Type 0 where
    takes : (size : ℕ) (w : K) → Takes fd buf 0 (some size, w) size w
    refuses :
        (n size : ℕ) (w last : K)
        → Takes fd buf n (kernel.send_to fd buf w) size last
        → Takes fd buf (suc n) (none, w) size last

  retry-Takes :
      {fd : ℤ} {buf : Bytes} {n size : ℕ} {r : Option ℕ × K} {last : K} (fuel : ℕ)
      → Takes fd buf n r size last
      → n ≤ fuel
      → retry kernel fuel fd buf r ≡ ok (size, last)
  unfolding retry
  retry-Takes fuel (takes size w) h = refl
  retry-Takes zero (refuses n size w last rest) h = absurd (omega arith)
  retry-Takes (suc fuel) (refuses n size w last rest) h = retry-Takes fuel rest (omega arith)

  -- Where the kernel refuses n times and then takes some bytes, `send` returns their number after n
  -- further rounds.
  pub send-Takes :
      (fuel n size : ℕ) (buf : Bytes) (s : Socket) (w last : K)
      → Takes s.sockfd buf n (kernel.send_to s.sockfd buf w) size last
      → n ≤ fuel
      → send kernel fuel buf s w ≡ ok (size, last)
  unfolding send
  send-Takes fuel n size buf s w last run h = retry-Takes fuel run h

  retry-refused :
      (fuel : ℕ) (fd : ℤ) (buf : Bytes) (r : Option ℕ × K)
      → ((v : K) → (kernel.send_to fd buf v).0 ≡ none)
      → r.0 ≡ none
      → retry kernel fuel fd buf r ≡ fault
  unfolding retry
  retry-refused fuel fd buf (some size, w) h e = absurd (cc)
  retry-refused zero fd buf (none, w) h e = refl
  retry-refused (suc fuel) fd buf (none, w) h e =
      retry-refused fuel fd buf (kernel.send_to fd buf w) h (h w)

  -- Where the kernel refuses for ever, as on a connection that the peer has reset, `send` never
  -- returns: no number of rounds is enough.
  pub send-refused :
      (fuel : ℕ) (buf : Bytes) (s : Socket) (w : K)
      → ((v : K) → (kernel.send_to s.sockfd buf v).0 ≡ none)
      → send kernel fuel buf s w ≡ fault
  unfolding send
  send-refused fuel buf s w h =
      retry-refused fuel s.sockfd buf (kernel.send_to s.sockfd buf w) h (h w)
