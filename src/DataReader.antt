-- ===== src/DataReader.antt =====
-- src/util/data_reader.cpp and src/include/util/data_reader.h. A file stream is its contents, from the
-- read position on. What the callback accepts of a buffer is a function of the number of its call and
-- the buffer; what `readsome` finds available is a function of what is left of the stream.
-- The rewind of the stream at the end is left out: a reader is a value that stays as it was.
pub mod Delivery
mod Tests
use calabash.Base.{
  ℕ, zero, suc, ◌+◌, ◌-◌, ◌*◌, ◌≡◌, Bool, true, false, List, [], ◌∷◌, ◌++◌, Bytes, length, take,
  drop, is_empty, ltb, if◌then◌else◌, leb, Outcome, ok, fault, ◌>>=◌,
}

pub record DataReader : Type 0 where
  pub input_file_stream : Bytes
  pub begin_data : Bytes
  pub stream_size : ℕ

abbrev pub empty_reader : DataReader
empty_reader = record { input_file_stream = []; begin_data = []; stream_size = 0 }

-- `4_KB`.
abbrev pub read_buf_size : ℕ
read_buf_size = 4 * 1024

unfoldable pub set_file_stream : Bytes → DataReader → DataReader
set_file_stream contents r = record r {
  input_file_stream = contents;
  stream_size = length contents;
}

unfoldable pub set_begin_data : Bytes → DataReader → DataReader
set_begin_data content r = record r { begin_data = content }

-- `ClearFileStream`: a closed stream has nothing left to read.
unfoldable pub clear_file_stream : DataReader → DataReader
clear_file_stream r = record r { input_file_stream = []; stream_size = 0 }

-- The move constructor and the move assignment: the reader that is made, and what is left of the
-- other. The C++ library leaves a text that was moved from in some state, `left`, and a stream that
-- was moved from closed.
unfoldable pub move_reader : Bytes → DataReader → DataReader × DataReader
move_reader left other = (
  record {
    input_file_stream = other.input_file_stream;
    begin_data = other.begin_data;
    stream_size = other.stream_size;
  },
  record other { input_file_stream = []; begin_data = left },
)

abbrev pub size : DataReader → ℕ
size r = r.stream_size + length r.begin_data

-- What has left through the callback, and how often it was called.
pub record Sent : Type 0 where
  pub wire : Bytes
  pub calls : ℕ

-- `readsome`: at most a buffer of what is available.
pub read_chunk : (Bytes → ℕ) → Bytes → Bytes
read_chunk readsome stream =
    take (if leb (readsome stream) read_buf_size then readsome stream else read_buf_size) stream

module _ (send : ℕ → Bytes → ℕ) where
  -- One call of the callback: it takes so many bytes off the front of the buffer.
  pub call : Bytes → Sent → Sent
  call buf s = record { wire = s.wire ++ take (send s.calls buf) buf; calls = suc s.calls }

  -- The inner loops: until `total_size` bytes of the buffer are accepted. The number of those that
  -- were comes first.
  pub send_loop : ℕ → Bytes → ℕ → ℕ → Sent → Outcome (ℕ × Sent)
  send_loop zero content total_size real_size s =
      if ltb real_size total_size then fault else ok (real_size, s)
  send_loop (suc fuel) content total_size real_size s =
      let buf = drop real_size content in
      let rest = send_loop fuel content total_size (real_size + send s.calls buf) (call buf s) in
      if ltb real_size total_size then rest else ok (real_size, s)

  pub send_all : Bytes → Sent → Outcome (ℕ × Sent)
  send_all content s = send_loop (length content) content (length content) 0 s

  module _ (readsome : Bytes → ℕ) where
    -- The outer loop, over the file.
    pub stream_loop : ℕ → Bytes → ℕ → ℕ → Sent → Outcome Sent
    stream_loop zero stream stream_size real_size s =
        if ltb real_size stream_size then fault else ok s
    stream_loop (suc fuel) stream stream_size real_size s =
        let chunk = read_chunk readsome stream in
        let rest = (do
          (pk_real_send, t) ← send_all chunk s
          stream_loop fuel (drop (length chunk) stream) stream_size (real_size + pk_real_send) t) in
        if ltb real_size stream_size then rest else ok s

    pub buffer_read : DataReader → Sent → Outcome Sent
    buffer_read r s = do
      (sent, t) ← if is_empty r.begin_data then ok (0, s) else send_all r.begin_data s
      stream_loop r.stream_size r.input_file_stream r.stream_size 0 t
