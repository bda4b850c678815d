-- ===== src/Md5.antt =====
-- src/util/md5.cpp and src/include/util/md5.h. An `unsigned int` is a number below 2^32; sums and
-- left shifts wrap. `char` is signed.
pub mod Store
pub mod Padding
pub mod Operations
pub mod Rounds
pub mod Digest
pub mod Rfc1321
mod Tests
use calabash.Base.{
  ℕ, zero, suc, ◌+◌, ◌-◌, ◌*◌, ◌/◌, ◌%◌, ◌^◌, bit_and, bit_or, bit_xor, List, [], ◌∷◌, ◌++◌, Bytes,
  codes, length, get_or, set, take, drop, replicate, ltb, if◌then◌else◌,
}

abbrev pub u32 : ℕ → ℕ
u32 x = x % 2 ^ 32

abbrev str16 : Bytes
str16 = codes "0123456789ABCDEF"

abbrev t_table : List ℕ
t_table =
    0xd76aa478 ∷ 0xe8c7b756 ∷ 0x242070db ∷ 0xc1bdceee ∷ 0xf57c0faf ∷ 0x4787c62a ∷ 0xa8304613
    ∷ 0xfd469501 ∷ 0x698098d8 ∷ 0x8b44f7af ∷ 0xffff5bb1 ∷ 0x895cd7be ∷ 0x6b901122 ∷ 0xfd987193
    ∷ 0xa679438e ∷ 0x49b40821 ∷ 0xf61e2562 ∷ 0xc040b340 ∷ 0x265e5a51 ∷ 0xe9b6c7aa ∷ 0xd62f105d
    ∷ 0x02441453 ∷ 0xd8a1e681 ∷ 0xe7d3fbc8 ∷ 0x21e1cde6 ∷ 0xc33707d6 ∷ 0xf4d50d87 ∷ 0x455a14ed
    ∷ 0xa9e3e905 ∷ 0xfcefa3f8 ∷ 0x676f02d9 ∷ 0x8d2a4c8a ∷ 0xfffa3942 ∷ 0x8771f681 ∷ 0x6d9d6122
    ∷ 0xfde5380c ∷ 0xa4beea44 ∷ 0x4bdecfa9 ∷ 0xf6bb4b60 ∷ 0xbebfbc70 ∷ 0x289b7ec6 ∷ 0xeaa127fa
    ∷ 0xd4ef3085 ∷ 0x04881d05 ∷ 0xd9d4d039 ∷ 0xe6db99e5 ∷ 0x1fa27cf8 ∷ 0xc4ac5665 ∷ 0xf4292244
    ∷ 0x432aff97 ∷ 0xab9423a7 ∷ 0xfc93a039 ∷ 0x655b59c3 ∷ 0x8f0ccc92 ∷ 0xffeff47d ∷ 0x85845dd1
    ∷ 0x6fa87e4f ∷ 0xfe2ce6e0 ∷ 0xa3014314 ∷ 0x4e0811a1 ∷ 0xf7537e82 ∷ 0xbd3af235 ∷ 0x2ad7d2bb
    ∷ 0xeb86d391 ∷ []

abbrev s_table : List ℕ
s_table =
    7 ∷ 12 ∷ 17 ∷ 22 ∷ 7 ∷ 12 ∷ 17 ∷ 22 ∷ 7 ∷ 12 ∷ 17 ∷ 22 ∷ 7 ∷ 12 ∷ 17 ∷ 22 ∷ 5 ∷ 9 ∷ 14 ∷ 20 ∷ 5
    ∷ 9 ∷ 14 ∷ 20 ∷ 5 ∷ 9 ∷ 14 ∷ 20 ∷ 5 ∷ 9 ∷ 14 ∷ 20 ∷ 4 ∷ 11 ∷ 16 ∷ 23 ∷ 4 ∷ 11 ∷ 16 ∷ 23 ∷ 4 ∷ 11
    ∷ 16 ∷ 23 ∷ 4 ∷ 11 ∷ 16 ∷ 23 ∷ 6 ∷ 10 ∷ 15 ∷ 21 ∷ 6 ∷ 10 ∷ 15 ∷ 21 ∷ 6 ∷ 10 ∷ 15 ∷ 21 ∷ 6 ∷ 10
    ∷ 15 ∷ 21 ∷ []

-- `~x`.
abbrev not32 : ℕ → ℕ
not32 x = 2 ^ 32 - 1 - x

pub f_mix : ℕ → ℕ → ℕ → ℕ
f_mix b c d = bit_or (bit_and b c) (bit_and (not32 b) d)

pub g_mix : ℕ → ℕ → ℕ → ℕ
g_mix b c d = bit_or (bit_and b d) (bit_and c (not32 d))

pub h_mix : ℕ → ℕ → ℕ → ℕ
h_mix b c d = bit_xor (bit_xor b c) d

pub i_mix : ℕ → ℕ → ℕ → ℕ
i_mix b c d = bit_xor c (bit_or b (not32 d))

pub shift : ℕ → ℕ → ℕ
shift a n = bit_or (u32 (a * 2 ^ n)) (a / 2 ^ (32 - n))

pub record Md5State : Type 0 where
  pub a : ℕ
  pub b : ℕ
  pub c : ℕ
  pub d : ℕ

-- `g` and `k` of round `i`.
pub mix : ℕ → Md5State → ℕ
unfolding f_mix g_mix h_mix i_mix
mix i st =
    if ltb i 16
    then f_mix st.b st.c st.d
    else if ltb i 32
    then g_mix st.b st.c st.d
    else if ltb i 48
    then h_mix st.b st.c st.d
    else i_mix st.b st.c st.d

pub word_index : ℕ → ℕ
word_index i =
    if ltb i 16
    then i
    else if ltb i 32
    then (1 + 5 * i) % 16
    else if ltb i 48
    then (5 + 3 * i) % 16
    else 7 * i % 16

-- The body of the loop in `IterateFunc`.
pub round : List ℕ → ℕ → Md5State → Md5State
unfolding mix word_index shift
round xs i st = record {
  a = st.d;
  b = u32 (
      st.b
      + shift (u32 (st.a + mix i st + get_or xs (word_index i) 0 + get_or t_table i 0))
          (get_or s_table i 0));
  c = st.b;
  d = st.c;
}

-- The rounds from `i` on, `n` of them.
pub rounds : List ℕ → ℕ → ℕ → Md5State → Md5State
unfolding round
rounds xs zero i st = st
rounds xs (suc n) i st = rounds xs n (i + 1) (round xs i st)

pub iterate_func : List ℕ → Md5State → Md5State
unfolding rounds
iterate_func xs temp =
    let st = rounds xs 64 0 temp in
    record {
      a = u32 (temp.a + st.a);
      b = u32 (temp.b + st.b);
      c = u32 (temp.c + st.c);
      d = u32 (temp.d + st.d);
    }

-- `(int) c` of a `char`, as the 32 bits that `|=` sees.
pub sign_extend : ℕ → ℕ
sign_extend c = if ltb c 128 then c else 2 ^ 32 - 256 + c

-- `rec[i] |= x`.
pub or_at : List ℕ → ℕ → ℕ → List ℕ
or_at rec i x = set rec i (bit_or (get_or rec i 0) x)

-- The loop over the bytes from index `i` on.
pub fill : List ℕ → ℕ → Bytes → List ℕ
unfolding or_at sign_extend
fill rec i [] = rec
fill rec i (c ∷ src) = fill (or_at rec (i / 4) (u32 (sign_extend c * 2 ^ (i % 4 * 8)))) (i + 1) src

-- Blocks of sixteen words: `num`.
pub block_count : Bytes → ℕ
block_count src = u32 ((length src + 8) / 64 + 1)

pub padding : Bytes → List ℕ
unfolding fill block_count or_at
padding src =
    let size = u32 (block_count src * 16) in
    let filled = fill (replicate size 0) 0 src in
    let marked = or_at filled (length src / 4) (u32 (0x80 * 2 ^ (length src % 4 * 8))) in
    set marked (size - 2) (u32 (length src * 2 ^ 3))

-- The loop of `Encode` over `n` blocks.
pub blocks : ℕ → List ℕ → Md5State → Md5State
unfolding iterate_func
blocks zero rec temp = temp
blocks (suc n) rec temp = blocks n (drop 16 rec) (iterate_func (take 16 rec) temp)

-- `res += tmp` appends characters up to a zero, and `tmp` holds two characters and no zero: `beyond`
-- is what the memory behind `tmp` adds, for each word and byte.
module _ (beyond : ℕ → ℕ → Bytes) where
  pub format_bytes : ℕ → ℕ → ℕ → Bytes
  format_bytes zero i num = []
  format_bytes (suc n) i num =
      let b = num / 2 ^ (i * 8) % 256 in
      get_or str16 (b / 16 % 16) 0
      ∷ get_or str16 (b % 16) 0
      ∷ (beyond num i ++ format_bytes n (i + 1) num)

  pub format : ℕ → Bytes
  unfolding format_bytes
  format num = format_bytes 4 0 num

  unfoldable pub encode : Bytes → Bytes
  unfolding format blocks padding
  encode src =
      let rec = padding src in
      let st =
        blocks (length rec / 16) rec
          (record { a = 0x67452301; b = 0xefcdab89; c = 0x98badcfe; d = 0x10325476 }) in
      format st.a ++ (format st.b ++ (format st.c ++ format st.d))
