-- ===== src/DataReader/Delivery.antt =====
-- All that a reader holds is handed to the callback, once and in order.
use calabash.Base.{
  ◌∷◌, length-take, if◌then◌else◌, leb, is_empty, subst, [], ◌>>=◌, drop-all, drop-drop, ℕ, zero,
  suc, ◌+◌, ◌≡◌, ◌<◌, ◌≤◌, refl, sym, ◌∙◌, ap, true, false, ◌++◌, Bytes, length, take, drop, ltb,
  Outcome, ok, arith, length-drop, take-append-drop, append_assoc, append-nil, Bool-cases, inl, inr,
}
use calabash.DataReader.{
  DataReader, read_buf_size, stream_loop, buffer_read, read_chunk, Sent, call, send_loop, send_all,
}

-- The callback accepts at least one byte of a buffer with bytes, and no more than the buffer has.
pub record Accepts (send : ℕ → Bytes → ℕ) : Type 0 where
  pub some_byte : (k : ℕ) (buf : Bytes) → 0 < length buf → 0 < send k buf
  pub in_buffer : (k : ℕ) (buf : Bytes) → send k buf ≤ length buf

-- What is sent, whatever the number of calls.
unfoldable pub Delivers : Bytes → Sent → Outcome Sent → Type 0
Delivers content s o = (t : Sent) × (o ≡ ok t) × (t.wire ≡ s.wire ++ content)

-- So many bytes are accepted, and they are those.
unfoldable pub Accepted : ℕ → Bytes → Sent → Outcome (ℕ × Sent) → Type 0
Accepted n content s o = (t : Sent) × (o ≡ ok (n, t)) × (t.wire ≡ s.wire ++ content)

all-Accepted :
    (s : Sent) (content : Bytes) (n : ℕ)
    → n ≡ length content
    → Accepted (length content) (drop n content) s (ok (n, s))
unfolding Accepted
all-Accepted s content n h = (
  s,
  ap (λ k. ok (k, s)) h,
  sym (append-nil s.wire) ∙ ap (λ b. s.wire ++ b) (sym (drop-all n content (omega (arith, h)))),
)

nothing_left :
    (s : Sent) (content : Bytes) (n : ℕ) → length content ≤ n → Delivers (drop n content) s (ok s)
unfolding Delivers
nothing_left s content n h =
    (s, refl, sym (append-nil s.wire) ∙ ap (λ b. s.wire ++ b) (sym (drop-all n content h)))

module _ (send : ℕ → Bytes → ℕ) where
  send_loop-done :
      (fuel : ℕ) (content : Bytes) (total_size real_size : ℕ) (s : Sent)
      → ltb real_size total_size ≡ false
      → send_loop send fuel content total_size real_size s ≡ ok (real_size, s)
  unfolding send_loop
  send_loop-done zero content total_size real_size s e = rw e refl
  send_loop-done (suc fuel) content total_size real_size s e = rw e refl

  send_loop-more :
      (fuel : ℕ) (content : Bytes) (total_size real_size : ℕ) (s : Sent)
      → ltb real_size total_size ≡ true
      → send_loop send (suc fuel) content total_size real_size s
        ≡ send_loop send fuel content total_size
            (real_size + send s.calls (drop real_size content))
            (call send (drop real_size content) s)
  unfolding send_loop
  send_loop-more fuel content total_size real_size s e = rw e refl

  -- One call, and then what is left.
  call-Accepted :
      (m : ℕ) (content : Bytes) (real_size : ℕ) (s : Sent) (o : Outcome (ℕ × Sent))
      → (let buf = drop real_size content in
          Accepted m (drop (real_size + send s.calls buf) content) (call send buf s) o)
      → Accepted m (drop real_size content) s o
  unfolding Accepted call
  call-Accepted m content real_size s o (t, e, sent) =
      let buf = drop real_size content in
      let n = send s.calls buf in
      (
        t,
        e,
        sent
            ∙ ap (λ b. s.wire ++ take n buf ++ b) (sym (drop-drop n real_size content))
            ∙ append_assoc s.wire (take n buf) (drop n buf)
            ∙ ap (λ b. s.wire ++ b) (take-append-drop n buf),
      )

  module _ (accepts : Accepts send) where
    send_loop-Accepted :
        (fuel : ℕ) (content : Bytes) (real_size : ℕ) (s : Sent)
        → real_size ≤ length content
        → length content ≤ real_size + fuel
        → Accepted
            (length content)
            (drop real_size content)
            s
            (send_loop send fuel content (length content) real_size s)
    send_loop-Accepted zero content real_size s low enough =
        rw (send_loop-done 0 content (length content) real_size s (ground arith))
          (all-Accepted s content real_size (omega arith))
    send_loop-Accepted (suc fuel) content real_size s low enough =
        let buf = drop real_size content in
        let left = length-drop real_size content in
        let n = send s.calls buf in
        let fits = accepts.in_buffer s.calls buf in
        elim (Bool-cases (ltb real_size (length content))) [
          | inl more ↦
              let moves = accepts.some_byte s.calls buf (ground (arith, more, left)) in
              rw (send_loop-more fuel content (length content) real_size s more) (
                call-Accepted (length content) content real_size s
                  (send_loop send fuel content (length content) (real_size + n) (call send buf s))
                  (send_loop-Accepted fuel content (real_size + n) (call send buf s)
                    (omega (arith, fits, left, low)) (omega (arith, moves, enough))))
          | inr done ↦
              rw (send_loop-done (suc fuel) content (length content) real_size s done)
                (all-Accepted s content real_size (ground (arith, done, low)))
        ]

    -- However a buffer is cut by the callback, all of it arrives in order.
    pub send_all-Accepted :
        (content : Bytes) (s : Sent) → Accepted (length content) content s (send_all send content s)
    unfolding send_all
    send_all-Accepted content s =
        send_loop-Accepted (length content) content 0 s (omega arith) (omega arith)

-- While bytes are left, `readsome` finds one, and it finds no more than are left.
pub record Available (readsome : Bytes → ℕ) : Type 0 where
  pub some_left : (b : Bytes) → 0 < length b → 0 < readsome b
  pub in_stream : (b : Bytes) → readsome b ≤ length b

Delivers-bind :
    (n : ℕ) (a b : Bytes) (s : Sent) (o : Outcome (ℕ × Sent)) (k : ℕ × Sent → Outcome Sent)
    → Accepted n a s o
    → ((t : Sent) → Delivers b t (k (n, t)))
    → Delivers (a ++ b) s (o >>= k)
unfolding Delivers Accepted
Delivers-bind n a b s o k (t, e, sent) rest =
    let (u, e', sent') = rest t in
    (u, rw e e', sent' ∙ ap (λ w. w ++ b) sent ∙ append_assoc s.wire a b)

module _ (send : ℕ → Bytes → ℕ) (readsome : Bytes → ℕ) (accepts : Accepts send)
    (available : Available readsome) where
  length-read_chunk :
      (stream : Bytes)
      → 0 < length stream
      → (0 < length (read_chunk readsome stream))
        × (length (read_chunk readsome stream) ≤ length stream)
        × (stream ≡ read_chunk readsome stream ++ drop (length (read_chunk readsome stream)) stream)
  unfolding read_chunk
  length-read_chunk stream h =
      let n = if leb (readsome stream) read_buf_size then readsome stream else read_buf_size in
      let low : 0 < n = ground (arith, available.some_left stream h) in
      let high : n ≤ length stream = ground (arith, available.in_stream stream) in
      let size = length-take n stream high in
      (
        omega (arith, size, low),
        omega (arith, size, high),
        rw size (sym (take-append-drop n stream)),
      )

  stream_loop-done :
      (fuel : ℕ) (stream : Bytes) (stream_size real_size : ℕ) (s : Sent)
      → ltb real_size stream_size ≡ false
      → stream_loop send readsome fuel stream stream_size real_size s ≡ ok s
  unfolding stream_loop
  stream_loop-done zero stream stream_size real_size s e = rw e refl
  stream_loop-done (suc fuel) stream stream_size real_size s e = rw e refl

  stream_loop-more :
      (fuel : ℕ) (stream : Bytes) (stream_size real_size : ℕ) (s : Sent)
      → ltb real_size stream_size ≡ true
      → (let chunk = read_chunk readsome stream in
          stream_loop send readsome (suc fuel) stream stream_size real_size s ≡ (
            send_all send chunk s >>= λ r.
            stream_loop send readsome fuel
              (drop (length chunk) stream)
              stream_size
              (real_size + r.0)
              r.1))
  unfolding stream_loop
  stream_loop-more fuel stream stream_size real_size s e = rw e refl

  stream_loop-Delivers :
      (fuel : ℕ) (stream : Bytes) (stream_size real_size : ℕ) (s : Sent)
      → real_size + length stream ≡ stream_size
      → length stream ≤ fuel
      → Delivers stream s (stream_loop send readsome fuel stream stream_size real_size s)
  stream_loop-Delivers zero stream stream_size real_size s e enough =
      rw (stream_loop-done zero stream stream_size real_size s (ground arith))
        (nothing_left s stream 0 enough)
  stream_loop-Delivers (suc fuel) stream stream_size real_size s e enough =
      let chunk = read_chunk readsome stream in
      let left = length-drop (length chunk) stream in
      elim (Bool-cases (ltb real_size stream_size)) [
        | inl more ↦
            let cut = length-read_chunk stream (ground (arith, more, e)) in
            rw (stream_loop-more fuel stream stream_size real_size s more) (
              subst
                (λ b. Delivers b s (
                  send_all send chunk s >>= λ r.
                  stream_loop send readsome fuel (drop (length chunk) stream) stream_size
                    (real_size + r.0) r.1))
                (sym cut.2)
                (Delivers-bind (length chunk) chunk (drop (length chunk) stream) s
                  (send_all send chunk s)
                  (λ r.
                    stream_loop send readsome fuel (drop (length chunk) stream) stream_size
                      (real_size + r.0) r.1)
                  (send_all-Accepted send accepts chunk s)
                  (λ t.
                    stream_loop-Delivers fuel (drop (length chunk) stream) stream_size
                      (real_size + length chunk) t (omega (arith, e, left, cut.1))
                      (omega (arith, left, cut.0, cut.1, enough)))))
        | inr done ↦
            rw (stream_loop-done (suc fuel) stream stream_size real_size s done)
              (nothing_left s stream 0 (ground (arith, done, e)))
      ]

  head-Accepted :
      (head : Bytes) (s : Sent)
      → Accepted (length head) head s (if is_empty head then ok (0, s) else send_all send head s)
  unfolding Accepted
  head-Accepted [] s = (s, refl, sym (append-nil s.wire))
  head-Accepted (b ∷ bs) s = send_all-Accepted send accepts (b ∷ bs) s

  -- A reader whose size is that of its file hands over its head and then the file, complete, if the
  -- callback accepts at least one byte of a buffer and no more than it has, and `readsome` finds at
  -- least one byte, and no more than are left, while bytes are left.
  pub buffer_read-Delivers :
      (r : DataReader) (s : Sent)
      → r.stream_size ≡ length r.input_file_stream
      → Delivers (r.begin_data ++ r.input_file_stream) s (buffer_read send readsome r s)
  unfolding buffer_read
  buffer_read-Delivers r s e =
      Delivers-bind (length r.begin_data) r.begin_data r.input_file_stream s
        (if is_empty r.begin_data then ok (0, s) else send_all send r.begin_data s)
        (λ r'. stream_loop send readsome r.stream_size r.input_file_stream r.stream_size 0 r'.1)
        (head-Accepted r.begin_data s)
        (λ t.
          stream_loop-Delivers r.stream_size r.input_file_stream r.stream_size 0 t
            (omega (arith, e)) (omega (arith, e)))
