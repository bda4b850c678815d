-- ===== src/Response/Wire.antt =====
-- The bytes of a response.
use calabash.Base.{
  append-nil, ℕ, ◌+◌, ◌*◌, ◌≡◌, refl, ap, ◌∙◌, subst, ◌++◌, append_assoc, length, length-append,
  Bytes, arith, Bool-cases, inl, inr, ltb,
}
use calabash.DataReader.{Sent, buffer_read, set_file_stream, set_begin_data}
use calabash.DataReader.Delivery.{Accepts, Available, Delivers, buffer_read-Delivers}
use calabash.Response.{
  Response, new_response, get_data_reader, make_http_head, auto_file_data, set_body_data,
  body_data_stream,
}

module _ (send : ℕ → Bytes → ℕ) (readsome : Bytes → ℕ) (accepts : Accepts send)
    (available : Available readsome) where
  -- Under the same conditions on the callback and the stream as `buffer_read`, a response whose reader
  -- has the size of its file leaves as its head, with a `Content-Length` of what follows, then its
  -- body and its file.
  pub get_data_reader-wire :
      (show : ℕ → Bytes) (r : Response) (s : Sent)
      → r.data_reader.stream_size ≡ length r.data_reader.input_file_stream
      → (let content = r.body_data ++ r.data_reader.input_file_stream in
          Delivers
            (make_http_head show (length content) r ++ content)
            s
            (buffer_read send readsome (get_data_reader show r) s))
  unfolding get_data_reader set_begin_data
  get_data_reader-wire show r s e =
      let content = r.body_data ++ r.data_reader.input_file_stream in
      let head = make_http_head show (length r.body_data + r.data_reader.stream_size) r in
      let size : length r.body_data + r.data_reader.stream_size ≡ length content =
        omega (arith, length-append r.body_data r.data_reader.input_file_stream, e) in
      subst (λ whole. Delivers whole s (buffer_read send readsome (get_data_reader show r) s))
        (append_assoc head r.body_data r.data_reader.input_file_stream
          ∙ ap (λ n. make_http_head show n r ++ content) size)
        (buffer_read-Delivers send readsome accepts available (get_data_reader show r) s e)

  streamed :
      (show : ℕ → Bytes) (contents : Bytes) (s : Sent)
      → (let r = body_data_stream contents new_response in
          Delivers
            (make_http_head show (length contents) r ++ contents)
            s
            (buffer_read send readsome (get_data_reader show r) s))
  unfolding body_data_stream set_file_stream
  streamed show contents s =
      get_data_reader-wire show (body_data_stream contents new_response) s refl

  in_memory :
      (show : ℕ → Bytes) (contents : Bytes) (s : Sent)
      → (let r = set_body_data contents new_response in
          Delivers
            (make_http_head show (length contents) r ++ contents)
            s
            (buffer_read send readsome (get_data_reader show r) s))
  unfolding set_body_data
  in_memory show contents s =
      subst
        (λ b.
          (let r = set_body_data contents new_response in
            Delivers (make_http_head show (length b) r ++ b) s
              (buffer_read send readsome (get_data_reader show r) s)))
        (append-nil contents)
        (get_data_reader-wire show (set_body_data contents new_response) s refl)

  -- Under the same conditions on the callback and the stream as `buffer_read`, a response to a file,
  -- kept in memory or streamed by its size, leaves as its head, with the length of the file in it,
  -- and then the file.
  pub auto_file_data-wire :
      (show : ℕ → Bytes) (read_file : Bytes → Bytes) (path : Bytes) (s : Sent)
      → (let r = auto_file_data read_file path new_response in
          Delivers
            (make_http_head show (length (read_file path)) r ++ read_file path)
            s
            (buffer_read send readsome (get_data_reader show r) s))
  unfolding auto_file_data
  auto_file_data-wire show read_file path s =
      elim (Bool-cases (ltb (1024 * 1024) (length (read_file path)))) [
        | inl big ↦ rw big (streamed show (read_file path) s)
        | inr small ↦ rw small (in_memory show (read_file path) s)
      ]
