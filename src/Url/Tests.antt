-- ===== src/Url/Tests.antt =====
-- Runs of percent encoding, and the theorems at concrete inputs.
use calabash.Base.{◌≡◌, refl, codes, ok, throw, [], ◌∷◌, arith}
use calabash.Url.{url_encode, url_decode, url_is_invalid}
use calabash.Url.RoundTrip.{url_decode-url_encode}

escaped : url_encode (codes "a<b>%") ≡ codes "a%3Cb%3E%25"
unfolding url_encode
escaped = refl

unescaped : url_decode (codes "a%3Cb%20%25") ≡ ok (codes "a<b %")
unfolding url_decode
unescaped = refl

cut_short : url_decode (codes "a%3") ≡ throw url_is_invalid
unfolding url_decode
cut_short = refl

url_decode-url_encode_example : url_decode (url_encode (37 ∷ 200 ∷ [])) ≡ ok (37 ∷ 200 ∷ [])
url_decode-url_encode_example =
    url_decode-url_encode (37 ∷ 200 ∷ []) (omega arith, (omega arith, tt))
