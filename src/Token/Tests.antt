-- ===== src/Token/Tests.antt =====
-- The theorems at a concrete token, with a calendar that writes a second as so many strokes.
use calabash.Base.{
  ap, ℕ, zero, suc, ◌≡◌, ◌<◌, refl, true, [], ◌∷◌, Bytes, codes, All, replicate, length,
  length-replicate, arith, ok,
}
use calabash.Token.{Calendar, Tm, zero_tm, Token, encode, parse}
use calabash.Token.RoundTrip.{IsPlain, parse-encode, read_back}

pub strokes_ascii : (n : ℕ) → All (λ c. c < 128) (replicate n b'1')
strokes_ascii zero = tt
strokes_ascii (suc n) = (omega arith, strokes_ascii n)

-- A second without a date.
abbrev tm_of : ℕ → Tm
tm_of n = record zero_tm { sec = n }

abbrev pub strokes : Calendar
strokes = record {
  localtime = tm_of;
  mktime = λ m. m.sec;
  put_time = λ m. replicate m.sec b'1';
  get_time = λ text m. record (tm_of (length text)) { is_dst = m.is_dst };
  mktime-localtime = λ t. refl;
  get_time-put_time =
      λ t m h. ap (λ n. record (tm_of n) { is_dst = m.is_dst }) (length-replicate t b'1');
  put_time_ascii = strokes_ascii;
}

pub strokes-IsPlain : (t : ℕ) → IsPlain strokes t
strokes-IsPlain t = record { four_digits = omega arith; standard = refl }

abbrev ann : Token
ann = record { is_useful = true; is_in_time = true; user_id = codes "Li"; end_time = 2000000007 }

abbrev accented : Token
accented = record { is_useful = true; is_in_time = true; user_id = 233 ∷ []; end_time = 2000000007 }

parse-encode_example :
    (e : Bytes) × (encode strokes (λ w i. []) ann (codes "k") ≡ ok e)
    × (parse strokes (λ w i. []) 5 e (codes "k") ≡ ok (read_back 5 ann))
parse-encode_example =
    parse-encode strokes (λ w i. []) (λ w i. refl) 5 ann 107 [] refl
      (ground arith, (ground arith, tt)) (omega arith, (omega arith, tt)) (omega arith, tt)
      (strokes-IsPlain 2)
