-- ===== src/Base64/Tests.antt =====
-- Runs of the codec, and the theorems at concrete inputs.
use calabash.Base.{◌≡◌, refl, [], ◌∷◌, codes, ok, fault, arith}
use calabash.Base64.{encode, decode}
use calabash.Base64.Rfc4648.{all_ascii, encode-eq-reference}
use calabash.Base64.RoundTrip.{decode-encode}

hello : encode (codes "hello, world") ≡ ok (codes "aGVsbG8sIHdvcmxk")
unfolding encode
hello = refl

padded : encode (codes "Ma") ≡ ok (codes "TWE=")
unfolding encode
padded = refl

back : decode (codes "TWE=") ≡ ok (codes "Ma")
unfolding decode
back = refl

encode-eq-reference_example : encode (200 ∷ []) ≡ fault
unfolding all_ascii
encode-eq-reference_example = encode-eq-reference (200 ∷ []) (omega arith, tt)

decode-encode_example : decode (codes "TWE=") ≡ ok (codes "Ma")
decode-encode_example =
    decode-encode (codes "Ma") (codes "TWE=") (omega arith, (omega arith, tt)) padded
