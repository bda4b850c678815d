-- ===== src/DataReader/Tests.antt =====
-- The theorem at a callback that takes one byte at a time.
use calabash.Base.{ℕ, ◌≡◌, ok, fault, ◌≤◌, ◌<◌, refl, [], ◌∷◌, Bytes, length, arith}
use calabash.DataReader.{
  DataReader, Sent, buffer_read, clear_file_stream, move_reader, send_all, send_loop, stream_loop,
  call, read_chunk,
}
use calabash.DataReader.Delivery.{Accepts, Available, Delivers, buffer_read-Delivers}

abbrev one_byte : ℕ → Bytes → ℕ
one_byte k [] = 0
one_byte k (b ∷ buf) = 1

some_byte_of : (k : ℕ) (buf : Bytes) → 0 < length buf → 0 < one_byte k buf
some_byte_of k [] h = absurd (omega arith)
some_byte_of k (b ∷ buf) h = omega arith

in_buffer_of : (k : ℕ) (buf : Bytes) → one_byte k buf ≤ length buf
in_buffer_of k [] = omega arith
in_buffer_of k (b ∷ buf) = omega arith

one_byte-Accepts : Accepts one_byte
one_byte-Accepts = record { some_byte = some_byte_of; in_buffer = in_buffer_of }

length-Available : Available length
length-Available = record { some_left = λ b h. h; in_stream = λ b. omega arith }

abbrev small : DataReader
small = record { input_file_stream = 3 ∷ 4 ∷ []; begin_data = 1 ∷ 2 ∷ []; stream_size = 2 }

abbrev unsent : Sent
unsent = record { wire = []; calls = 0 }

buffer_read-Delivers_example :
    Delivers (1 ∷ 2 ∷ 3 ∷ 4 ∷ []) unsent (buffer_read one_byte length small unsent)
buffer_read-Delivers_example =
    buffer_read-Delivers one_byte length one_byte-Accepts length-Available small unsent refl

-- After `ClearFileStream` the head alone is sent.
buffer_read-cleared :
    buffer_read one_byte length (clear_file_stream small) unsent
    ≡ ok (record { wire = 1 ∷ 2 ∷ []; calls = 2 })
unfolding buffer_read clear_file_stream send_all send_loop stream_loop call
buffer_read-cleared = refl

-- A reader that was moved from still has its size, but no stream that could come to it: no
-- round of the loop over the file makes progress.
buffer_read-moved : buffer_read one_byte length (move_reader [] small).1 unsent ≡ fault
unfolding buffer_read move_reader send_all send_loop stream_loop read_chunk
buffer_read-moved = refl
