-- ===== src/Token.antt =====
-- src/util/token.cpp and src/include/util/token.h: a login token, which is a digest and a payload
-- under an exclusive or with a key, in Base64. Times are ticks of `system_clock`, nanoseconds since
-- the epoch; what the clock shows and the calendar of the C library are parameters.
pub mod Cipher
pub mod RoundTrip
pub mod Tests
use calabash.Base.{
  ℕ, ◌+◌, ◌*◌, ◌/◌, ◌%◌, ◌≡◌, Bool, true, false, Option, none, some, List, [], ◌∷◌, ◌++◌, Bytes,
  All, bytes_eq, take, drop, length, get_or, is_empty, leb, not, ◌==◌, if◌then◌else◌, bit_xor,
  Outcome, ok, fault, ◌>>=◌, suc, zero, ◌<◌,
}
use calabash.Base64
use calabash.Md5

-- The members of `std::tm` that the format "%Y-%m-%d %H:%M:%S" and `mktime` use.
pub record Tm : Type 0 where
  pub year : ℕ
  pub month : ℕ
  pub day : ℕ
  pub hour : ℕ
  pub min : ℕ
  pub sec : ℕ
  pub is_dst : Bool

-- `::tm time_struct {}`.
abbrev pub zero_tm : Tm
zero_tm = record { year = 0; month = 0; day = 0; hour = 0; min = 0; sec = 0; is_dst = false }

-- The calendar of the C library, with `put_time` and `get_time` at that format. `localtime` sets every
-- member, so that `mktime` finds the second again; `get_time` fills in the members of the format and
-- leaves the others, and reads a year of at most four digits. What is written is ASCII.
pub record Calendar : Type 0 where
  pub localtime : ℕ → Tm
  pub mktime : Tm → ℕ
  pub put_time : Tm → Bytes
  pub get_time : Bytes → Tm → Tm
  pub mktime-localtime : (t : ℕ) → mktime (localtime t) ≡ t
  pub get_time-put_time :
      (t : ℕ) (m : Tm)
      → (localtime t).year < 10000
      → get_time (put_time (localtime t)) m ≡ record (localtime t) { is_dst = m.is_dst }
  pub put_time_ascii : (t : ℕ) → All (λ c. c < 128) (put_time (localtime t))

-- The text of a second, and the second of a text.
abbrev pub show_time : Calendar → ℕ → Bytes
show_time calendar t = calendar.put_time (calendar.localtime t)

abbrev pub read_time : Calendar → Bytes → ℕ
read_time calendar text = calendar.mktime (calendar.get_time text zero_tm)

abbrev pub ticks_per_second : ℕ
ticks_per_second = 1000000000

abbrev pub to_time_t : ℕ → ℕ
to_time_t t = t / ticks_per_second

abbrev pub from_time_t : ℕ → ℕ
from_time_t s = s * ticks_per_second

pub record Token : Type 0 where
  pub is_useful : Bool
  pub is_in_time : Bool
  pub user_id : Bytes
  pub end_time : ℕ

-- `Token() = default`, with the members' initialisers.
abbrev pub empty_token : Token
empty_token = record { is_useful = false; is_in_time = false; user_id = []; end_time = 0 }

-- The loop of `Encode` and of the constructor: `i` runs round the key, and `% key.size()` divides by
-- zero where the key is empty.
pub xor_key : Bytes → ℕ → Bytes → Outcome Bytes
xor_key key i [] = ok []
xor_key key i (th ∷ text) =
    let rest = xor_key key ((i + 1) % length key) text in
    if is_empty key then fault else (do out ← rest; ok (bit_xor th (get_or key i 0) ∷ out))

-- The text before the first bar and the text behind it.
pub split_bar : Bytes → Option (Bytes × Bytes)
split_bar [] = none
split_bar (c ∷ text) =
    let rest = split_bar text in
    if c == b'|'
    then some ([], text)
    else elim rest [ none ↦ none | some (user, tail) ↦ some (c ∷ user, tail) ]

module _ (calendar : Calendar) (beyond : ℕ → ℕ → Bytes) where
  -- What the constructor does with the decrypted text; it returns early with the default members.
  pub read_text : ℕ → Bytes → Token
  unfolding split_bar
  read_text now str =
      if leb (length str) 32
      then empty_token
      else if not (bytes_eq (take 32 str) (Md5.encode beyond (drop 32 str)))
      then empty_token
      else elim (split_bar (drop 32 str)) [
        | none ↦ empty_token
        | some (user, text) ↦
            let end = from_time_t (read_time calendar text) in
            record { is_useful = true; is_in_time = leb now end; user_id = user; end_time = end }
      ]

  -- `Token(token, key)`.
  pub parse : ℕ → Bytes → Bytes → Outcome Token
  unfolding xor_key read_text
  parse now token key = do
    pass ← Base64.decode token
    str ← xor_key key 0 pass
    ok (read_text now str)

  -- `Token(user_id, effective_time)`: the clock is read twice.
  abbrev pub issue : Bytes → ℕ → ℕ → ℕ → Token
  issue user seconds now later = record {
    is_useful = true;
    is_in_time = leb later (now + seconds * ticks_per_second);
    user_id = user;
    end_time = now + seconds * ticks_per_second;
  }

  pub to_string : Token → Bytes
  to_string t =
      let payload = t.user_id ++ b'|' ∷ show_time calendar (to_time_t t.end_time) in
      if not t.is_useful then [] else Md5.encode beyond payload ++ payload

  pub encode : Token → Bytes → Outcome Bytes
  unfolding xor_key to_string
  encode t key = do pass ← xor_key key 0 (to_string t); Base64.encode pass
