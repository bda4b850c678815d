-- ===== src/Response/Tests.antt =====
-- The theorems at small responses, with the server's table of types.
use calabash.Base.{ℕ, [], ◌∷◌, Bytes, codes, length, arith}
use calabash.DataReader.{Sent}
use calabash.DataReader.Delivery.{Accepts, Available}
use calabash.Response.{Response, new_response}

abbrev pub whole : ℕ → Bytes → ℕ
whole k buf = length buf

pub whole-Accepts : Accepts whole
whole-Accepts = record { some_byte = λ k buf h. h; in_buffer = λ k buf. omega arith }

pub length-Available : Available length
length-Available = record { some_left = λ b h. h; in_stream = λ b. omega arith }

abbrev unsent : Sent
unsent = record { wire = []; calls = 0 }

abbrev typed : Response
typed = record new_response { headers = (codes "A", codes "x") ∷ []; body_data = codes "hi" }
