-- ===== src/Md5/Rfc1321.antt =====
-- The digest of a text, by RFC 1321 and by `MD5::Encode`.
use calabash.Base.{
  ℕ, zero, suc, ◌/◌, ◌^◌, ◌<◌, ◌≡◌, refl, List, [], ◌++◌, Bytes, All, length, take, drop, arith,
}
use calabash.Md5.{Md5State, blocks, format, encode}
use calabash.Md5.Padding.{rfc_words, padding-eq-rfc_words}
use calabash.Md5.Rounds.{rfc_block, iterate_func-eq-rfc_block}
use calabash.Md5.Digest.{read_hex, read_hex-format}

-- Section 3.3: the buffer as four words.
abbrev pub rfc_buffer : Md5State
rfc_buffer = record { a = 0x67452301; b = 0xefcdab89; c = 0x98badcfe; d = 0x10325476 }

-- Every block of sixteen words in its turn.
pub rfc_blocks : ℕ → List ℕ → Md5State → Md5State
rfc_blocks zero words st = st
rfc_blocks (suc n) words st = rfc_blocks n (drop 16 words) (rfc_block (take 16 words) st)

pub rfc_digest : Bytes → Md5State
rfc_digest src = rfc_blocks (length (rfc_words src) / 16) (rfc_words src) rfc_buffer

blocks-eq-rfc_blocks :
    (n : ℕ) (words : List ℕ) (st : Md5State) → blocks n words st ≡ rfc_blocks n words st
unfolding blocks rfc_blocks
blocks-eq-rfc_blocks zero words st = refl
blocks-eq-rfc_blocks (suc n) words st =
    rw (iterate_func-eq-rfc_block (take 16 words) st)
      (blocks-eq-rfc_blocks n (drop 16 words) (rfc_block (take 16 words) st))

-- Four words of 32 bits.
record AreWords (st : Md5State) : Type 0 where
  a : st.a < 2 ^ 32
  b : st.b < 2 ^ 32
  c : st.c < 2 ^ 32
  d : st.d < 2 ^ 32

rfc_block-AreWords : (xs : List ℕ) (st : Md5State) → AreWords (rfc_block xs st)
unfolding rfc_block
rfc_block-AreWords xs st = record {
  a = omega arith;
  b = omega arith;
  c = omega arith;
  d = omega arith;
}

rfc_blocks-AreWords :
    (n : ℕ) (words : List ℕ) (st : Md5State) → AreWords st → AreWords (rfc_blocks n words st)
unfolding rfc_blocks
rfc_blocks-AreWords zero words st h = h
rfc_blocks-AreWords (suc n) words st h =
    rfc_blocks-AreWords n (drop 16 words) (rfc_block (take 16 words) st)
      (rfc_block-AreWords (take 16 words) st)

rfc_digest-AreWords : (src : Bytes) → AreWords (rfc_digest src)
unfolding rfc_digest
rfc_digest-AreWords src =
    rfc_blocks-AreWords (length (rfc_words src) / 16) (rfc_words src) rfc_buffer
      (record { a = omega arith; b = omega arith; c = omega arith; d = omega arith })

module _ (beyond : ℕ → ℕ → Bytes) (clean : (w i : ℕ) → beyond w i ≡ []) where
  -- Whatever the ASCII text, of less than 2^29 bytes, and where nothing stands behind the digest's
  -- unterminated characters, the result is the texts of the four words that RFC 1321 computes, in
  -- their order; and each of these texts, read as hexadecimal digits, the low byte first, is its word.
  pub encode-eq-rfc_digest :
      (src : Bytes)
      → All (λ c. c < 128) src
      → length src < 2 ^ 29
      → (let st = rfc_digest src in
          (encode beyond src
            ≡ format beyond st.a
              ++ (format beyond st.b ++ (format beyond st.c ++ format beyond st.d)))
          × (read_hex (format beyond st.a) ≡ st.a)
          × (read_hex (format beyond st.b) ≡ st.b)
          × (read_hex (format beyond st.c) ≡ st.c)
          × (read_hex (format beyond st.d) ≡ st.d))
  unfolding encode rfc_digest
  encode-eq-rfc_digest src h small =
      let words = rfc_words src in
      let fits = rfc_digest-AreWords src in
      let st = rfc_digest src in
      (
        rw (padding-eq-rfc_words src h small)
            (rw (blocks-eq-rfc_blocks (length words / 16) words rfc_buffer) refl),
        read_hex-format beyond clean st.a fits.a,
        read_hex-format beyond clean st.b fits.b,
        read_hex-format beyond clean st.c fits.c,
        read_hex-format beyond clean st.d fits.d,
      )
