-- ===== src/Token/RoundTrip.antt =====
-- A token that was encoded and read back.
use calabash.Base.{
  sym, ◌∙◌, ap, fault, ◌&&◌, if◌then◌else◌, ℕ, ◌<◌, ◌≡◌, ◌≢◌, refl, true, false, some, [], ◌∷◌,
  ◌++◌, Bytes, All, All-append, length, length-append, take, drop, take-length-append,
  drop-length-append, bytes_eq_refl, leb, arith, ok, Bool-cases, inl, inr, subst,
}
use calabash.Base64.Rfc4648.{all_ascii, reference, encode-eq-reference}
use calabash.Base64.RoundTrip.{decode-reference}
use calabash.Md5
use calabash.Md5.Digest.{encode-digits, AllHex}
use calabash.Token.{
  Calendar, show_time, read_time, zero_tm, Token, to_time_t, from_time_t, split_bar, read_text,
  parse, to_string, encode,
}
use calabash.Token.Cipher.{
  under_key, all_ascii-under_key, xor_key_lem, under_key-ascii, under_key-twice, under_key-bytes,
}

abbrev pub NoBar : Bytes → Type 0
NoBar = All (λ c. c ≢ b'|')

split_bar_lem :
    (user text : Bytes) → NoBar user → split_bar (user ++ b'|' ∷ text) ≡ some (user, text)
unfolding split_bar
split_bar_lem [] text h = refl
split_bar_lem (c ∷ user) text (hc, h) = ground (arith, split_bar_lem user text h)

hex_is_ascii : (xs : Bytes) → AllHex xs → All (λ c. c < 128) xs
hex_is_ascii [] h = tt
hex_is_ascii (x ∷ xs) (p, h) = (ground arith, hex_is_ascii xs h)

widen : (xs : Bytes) → All (λ c. c < 128) xs → All (λ c. c < 256) xs
widen [] h = tt
widen (x ∷ xs) (p, h) = (omega arith, widen xs h)

all_ascii_of_All : (xs : Bytes) → All (λ c. c < 128) xs → all_ascii xs ≡ true
unfolding all_ascii
all_ascii_of_All [] h = refl
all_ascii_of_All (x ∷ xs) (p, h) = ground (arith, all_ascii_of_All xs h)

all_ascii-append : (xs ys : Bytes) → all_ascii (xs ++ ys) ≡ (all_ascii xs && all_ascii ys)
unfolding all_ascii
all_ascii-append [] ys = refl
all_ascii-append (x ∷ xs) ys = ground (arith, all_ascii-append xs ys)

-- The stored time is cut to whole seconds.
abbrev pub read_back : ℕ → Token → Token
read_back now t =
    let end = from_time_t (to_time_t t.end_time) in
    record { is_useful = true; is_in_time = leb now end; user_id = t.user_id; end_time = end }

-- A second of standard time, in a year of at most four digits.
pub record IsPlain (calendar : Calendar) (t : ℕ) : Type 0 where
  pub four_digits : (calendar.localtime t).year < 10000
  pub standard : (calendar.localtime t).is_dst ≡ false

-- Outside daylight saving time the members that `get_time` leaves at zero are those of `localtime`.
read_time-show_time :
    (calendar : Calendar) (t : ℕ)
    → IsPlain calendar t
    → read_time calendar (show_time calendar t) ≡ t
read_time-show_time calendar t plain =
    let same : calendar.localtime t ≡ record (calendar.localtime t) { is_dst = false } =
      ap (λ b. record (calendar.localtime t) { is_dst = b }) plain.standard in
    ap calendar.mktime (calendar.get_time-put_time t zero_tm plain.four_digits ∙ sym same)
    ∙ calendar.mktime-localtime t

module _ (calendar : Calendar) (beyond : ℕ → ℕ → Bytes) (clean : (w i : ℕ) → beyond w i ≡ []) where
  payload_ascii :
      (t : Token) → All (λ c. c < 128) t.user_id → All (λ c. c < 128) (to_string calendar beyond t)
  unfolding to_string
  payload_ascii t h =
      let text = b'|' ∷ show_time calendar (to_time_t t.end_time) in
      let payload = t.user_id ++ text in
      let digest = Md5.encode beyond payload in
      let ok_text =
        All-append (λ c. c < 128) t.user_id text h
          (omega arith, calendar.put_time_ascii (to_time_t t.end_time)) in
      let ok_digest = hex_is_ascii digest (encode-digits beyond clean payload).1 in
      elim (Bool-cases t.is_useful) [
        | inl u ↦ rw u (All-append (λ c. c < 128) digest payload ok_digest ok_text)
        | inr u ↦ rw u tt
      ]

  read_text-to_string :
      (now : ℕ) (t : Token)
      → t.is_useful ≡ true
      → NoBar t.user_id
      → IsPlain calendar (to_time_t t.end_time)
      → read_text calendar beyond now (to_string calendar beyond t) ≡ read_back now t
  unfolding to_string read_text
  read_text-to_string now t u h plain =
      let payload = t.user_id ++ b'|' ∷ show_time calendar (to_time_t t.end_time) in
      let digest = Md5.encode beyond payload in
      let n : length digest ≡ 32 = (encode-digits beyond clean payload).0 in
      let front : take 32 (digest ++ payload) ≡ digest =
        subst (λ (k : ℕ). take k (digest ++ payload) ≡ digest) n
          (take-length-append digest payload) in
      let back : drop 32 (digest ++ payload) ≡ payload =
        subst (λ (k : ℕ). drop k (digest ++ payload) ≡ payload) n
          (drop-length-append digest payload) in
      let long : leb (length (digest ++ payload)) 32 ≡ false = ground (
        arith,
        n,
        length-append digest payload,
        length-append t.user_id (b'|' ∷ show_time calendar (to_time_t t.end_time)),
      ) in
      rw (
        u,
        long,
        front,
        back,
        bytes_eq_refl digest,
        split_bar_lem t.user_id (show_time calendar (to_time_t t.end_time)) h,
        read_time-show_time calendar (to_time_t t.end_time) plain,
      )

  -- Where nothing stands behind the digest's unterminated characters, a useful token whose user name is
  -- ASCII without a bar, and whose end is in standard time and a year of at most four digits, is encoded
  -- with any nonempty ASCII key; reading it back with the same key gives the user, the end to the second,
  -- and whether that end is still ahead.
  pub parse-encode :
      (now : ℕ) (t : Token) (k : ℕ) (key : Bytes)
      → t.is_useful ≡ true
      → NoBar t.user_id
      → All (λ c. c < 128) t.user_id
      → All (λ c. c < 128) (k ∷ key)
      → IsPlain calendar (to_time_t t.end_time)
      → (e : Bytes) × (encode calendar beyond t (k ∷ key) ≡ ok e)
        × (parse calendar beyond now e (k ∷ key) ≡ ok (read_back now t))
  unfolding encode parse
  parse-encode now t k key u bar plain hk standard =
      let text = to_string calendar beyond t in
      let pass = under_key (k ∷ key) 0 text in
      let ascii = payload_ascii t plain in
      let small = under_key-ascii (k ∷ key) hk 0 text ascii in
      let bytes = widen pass small in
      (
        reference pass,
        rw (xor_key_lem k key 0 text, encode-eq-reference pass bytes, all_ascii_of_All pass small),
        rw (
          decode-reference pass bytes,
          xor_key_lem k key 0 pass,
          under_key-twice (k ∷ key) hk 0 text (widen text ascii),
          read_text-to_string now t u bar standard,
        ),
      )

  all_ascii-to_string :
      (t : Token)
      → t.is_useful ≡ true
      → all_ascii (to_string calendar beyond t) ≡ all_ascii t.user_id
  unfolding to_string
  all_ascii-to_string t u =
      let text = b'|' ∷ show_time calendar (to_time_t t.end_time) in
      let payload = t.user_id ++ text in
      let digest = Md5.encode beyond payload in
      rw u (
        ground (
          arith,
          all_ascii-append digest payload,
          all_ascii-append t.user_id text,
          all_ascii_of_All digest (hex_is_ascii digest (encode-digits beyond clean payload).1),
          all_ascii_of_All text (omega arith, calendar.put_time_ascii (to_time_t t.end_time)),
        ))

  to_string_bytes :
      (t : Token) → All (λ c. c < 256) t.user_id → All (λ c. c < 256) (to_string calendar beyond t)
  unfolding to_string
  to_string_bytes t h =
      let text = b'|' ∷ show_time calendar (to_time_t t.end_time) in
      let payload = t.user_id ++ text in
      let digest = Md5.encode beyond payload in
      let ok_text =
        All-append (λ c. c < 256) t.user_id text h
          (
            omega arith,
            widen (show_time calendar (to_time_t t.end_time))
                (calendar.put_time_ascii (to_time_t t.end_time)),
          ) in
      let ok_digest = widen digest (hex_is_ascii digest (encode-digits beyond clean payload).1) in
      elim (Bool-cases t.is_useful) [
        | inl u ↦ rw u (All-append (λ c. c < 256) digest payload ok_digest ok_text)
        | inr u ↦ rw u tt
      ]

  -- With an ASCII key the encoding of a useful token is defined exactly if its user name is ASCII; for
  -- another name `Base64::Encode` reads outside its table.
  pub encode-eq :
      (t : Token) (k : ℕ) (key : Bytes)
      → t.is_useful ≡ true
      → All (λ c. c < 256) t.user_id
      → All (λ c. c < 128) (k ∷ key)
      → encode calendar beyond t (k ∷ key) ≡ (
          if all_ascii t.user_id
          then ok (reference (under_key (k ∷ key) 0 (to_string calendar beyond t)))
          else fault)
  unfolding encode
  encode-eq t k key u bytes hk =
      let text = to_string calendar beyond t in
      rw (
        xor_key_lem k key 0 text,
        encode-eq-reference (under_key (k ∷ key) 0 text)
            (under_key-bytes (k ∷ key) hk 0 text (to_string_bytes t bytes)),
        all_ascii-under_key (k ∷ key) hk 0 text (to_string_bytes t bytes),
        all_ascii-to_string t u,
      )
