-- ===== src/Md5/Tests.antt =====
-- The cases of test/util/md5_test.cpp, and the theorems at concrete inputs.
use calabash.Base.{◌++◌, arith, length, [], ◌≡◌, refl, codes}
use calabash.Md5.Rfc1321.{rfc_digest, encode-eq-rfc_digest}
use calabash.Md5.Digest.{encode-digits, AllHex, read_hex}
use calabash.Md5.{format, encode}

digits_only : encode (λ w i. []) (codes "123456") ≡ codes "E10ADC3949BA59ABBE56E057F20F883E"
unfolding encode
digits_only = refl

two_blocks :
    encode
      (λ w i. [])
      (codes "qwertyuiopasdfghjklzxcvbnm123456789qwertyuiopasdfghjklzxcvbnm123456789")
    ≡ codes "255B794D440F080FCE958228D6DFB614"
unfolding encode
two_blocks = refl

encode-eq-rfc_digest_example :
    (encode (λ w i. []) (codes "a")
      ≡ format (λ w i. []) (rfc_digest (codes "a")).a
        ++ (format (λ w i. []) (rfc_digest (codes "a")).b
            ++ (format (λ w i. []) (rfc_digest (codes "a")).c
                ++ format (λ w i. []) (rfc_digest (codes "a")).d)))
    × (read_hex (format (λ w i. []) (rfc_digest (codes "a")).a) ≡ (rfc_digest (codes "a")).a)
    × (read_hex (format (λ w i. []) (rfc_digest (codes "a")).b) ≡ (rfc_digest (codes "a")).b)
    × (read_hex (format (λ w i. []) (rfc_digest (codes "a")).c) ≡ (rfc_digest (codes "a")).c)
    × (read_hex (format (λ w i. []) (rfc_digest (codes "a")).d) ≡ (rfc_digest (codes "a")).d)
encode-eq-rfc_digest_example =
    encode-eq-rfc_digest (λ w i. []) (λ w i. refl) (codes "a") (omega arith, tt) (omega arith)

encode-digits_example :
    (length (encode (λ w i. []) (codes "a")) ≡ 32) × AllHex (encode (λ w i. []) (codes "a"))
encode-digits_example = encode-digits (λ w i. []) (λ w i. refl) (codes "a")
