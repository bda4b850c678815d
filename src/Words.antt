-- ===== src/Words.antt =====
-- Words, lines and segments of a text: `GetNextWord`, `GetNextLine` and `Split` of
-- src/web/request_maker.cpp and src/include/web/request_maker.h. A pointer into a buffer is the list
-- of bytes from it to the end of the buffer's memory; a read at the end is a fault.
pub mod Scan
use calabash.Base.{
  String, ℕ, zero, suc, ◌+◌, ◌-◌, ◌≡◌, Bool, true, false, ◌&&◌, ◌||◌, not, Option, none, some, List,
  [], ◌∷◌, ◌++◌, Bytes, codes, length, take, drop, is_empty, ltb, leb, ◌==◌, if◌then◌else◌, Outcome,
  ok, throw, fault, ◌>>=◌,
}

abbrev pub is_space : ℕ → Bool
is_space c = c == b' ' || c == 13 || c == 10 || c == 9

unfoldable pub skip_space : Bytes → Outcome Bytes
skip_space [] = fault
skip_space (c ∷ mem) = let rest = skip_space mem in if is_space c then rest else ok (c ∷ mem)

-- The text up to the first white space, and what follows.
pub take_word : Bytes → Outcome (Bytes × Bytes)
take_word [] = fault
take_word (c ∷ mem) =
    let more = (do (word, rest) ← take_word mem; ok (c ∷ word, rest)) in
    if is_space c then ok ([], c ∷ mem) else more

abbrev pub length_error : String
length_error = "basic_string::_M_create"

-- `buf` runs over the white space in front, but `ptr` starts at the argument: with white space in
-- front the length `ptr - buf` is negative, which as a `size_t` is more than a string can hold.
unfoldable pub get_next_word : Bytes → Outcome (Bytes × Bytes)
unfolding skip_space take_word
get_next_word mem = do
  buf ← skip_space mem
  (word, ptr) ← take_word mem
  if length buf == length mem
      then (do rest ← skip_space ptr; ok (word, rest))
      else throw length_error

-- The text up to `\r` or `\n`, and what follows it or `\r` and one more character.
unfoldable pub get_next_line : Bytes → Outcome (Bytes × Bytes)
get_next_line [] = fault
get_next_line (c ∷ mem) =
    let more = (do (line, rest) ← get_next_line mem; ok (c ∷ line, rest)) in
    if c == 13
    then elim mem [ [] ↦ fault | _ ∷ rest ↦ ok ([], rest) ]
    else if c == 10
    then ok ([], mem)
    else more

-- One round of the inner loop of `Split`, over the segment read so far.
unfoldable pub split_from : ℕ → Bytes → Bytes → List Bytes
split_from ch cur [] = cur ∷ []
split_from ch cur (c ∷ str) =
    let others = split_from ch [] str in
    let longer = split_from ch (cur ++ c ∷ []) str in
    if c == ch then cur ∷ (if is_empty str then [] else others) else longer

unfoldable pub split : Bytes → ℕ → List Bytes
unfolding split_from
split str ch = if is_empty str then [] else split_from ch [] str
