-- ===== src/App/Tests/Library.antt =====
-- A JSON library: an object is a list of fields, the last that was put first.
use calabash.Base.{
  ◌≡◌, ◌≢◌, refl, Bool, true, false, ℤ, Option, some, none, List, [], ◌∷◌, Bytes, bytes_eq,
  bytes_eq_refl, bytes_eq_iff, if◌then◌else◌, arith,
}
use calabash.App.{Got, got, failed, JsonLib}

pub data Json : Type 0 where
  null_json : Json
  text_json : Bytes → Json
  number_json : ℤ → Json
  truth_json : Bool → Json
  no_fields : Json
  field : Bytes → Json → Json → Json
  pushed : Json → Json → Json

abbrev pub object_of : List (Bytes × Json) → Json
object_of [] = no_fields
object_of ((k, v) ∷ rest) = field k v (object_of rest)

abbrev pub find_field : Bytes → Json → Option Json
find_field k (field j v rest) = if bytes_eq j k then some v else find_field k rest
find_field k null_json = none
find_field k (text_json s) = none
find_field k (number_json z) = none
find_field k (truth_json b) = none
find_field k no_fields = none
find_field k (pushed i j) = none

abbrev pub has_fields : Json → Bool
has_fields (field k v rest) = true
has_fields no_fields = true
has_fields null_json = false
has_fields (text_json s) = false
has_fields (number_json z) = false
has_fields (truth_json b) = false
has_fields (pushed i j) = false

abbrev pub text_of : Json → Got Bytes
text_of (text_json s) = got s
text_of null_json = failed []
text_of (number_json z) = failed []
text_of (truth_json b) = failed []
text_of no_fields = failed []
text_of (field k v rest) = failed []
text_of (pushed i j) = failed []

abbrev pub truth_of : Json → Got Bool
truth_of (truth_json b) = got b
truth_of null_json = failed []
truth_of (text_json s) = failed []
truth_of (number_json z) = failed []
truth_of no_fields = failed []
truth_of (field k v rest) = failed []
truth_of (pushed i j) = failed []

abbrev pub number_of : Json → Got ℤ
number_of (number_json z) = got z
number_of null_json = failed []
number_of (text_json s) = failed []
number_of (truth_json b) = failed []
number_of no_fields = failed []
number_of (field k v rest) = failed []
number_of (pushed i j) = failed []

abbrev pub same_got : Got Bytes → Got Bytes → Bool
same_got (got s) (got t) = bytes_eq s t
same_got (got s) (failed what) = false
same_got (failed what) t = false

pub find_field-IsObject : (k : Bytes) (j v : Json) → find_field k j ≡ some v → has_fields j ≡ true
find_field-IsObject k (field j w rest) v e = refl
find_field-IsObject k null_json v e = absurd (cc)
find_field-IsObject k (text_json s) v e = absurd (cc)
find_field-IsObject k (number_json z) v e = absurd (cc)
find_field-IsObject k (truth_json b) v e = absurd (cc)
find_field-IsObject k no_fields v e = refl
find_field-IsObject k (pushed i j) v e = absurd (cc)

pub find_field-put : (k : Bytes) (v j : Json) → find_field k (field k v j) ≡ some v
find_field-put k v j = rw (bytes_eq_refl k) refl

pub find_field-put_other :
    (k l : Bytes) (v j : Json) → k ≢ l → find_field l (field k v j) ≡ find_field l j
find_field-put_other k l v j h = ground (arith, bytes_eq_iff k l)

abbrev pub json_lib : JsonLib Json ℤ
json_lib = record {
  null = null_json;
  object = object_of;
  text = text_json;
  number = number_json;
  truth = truth_json;
  push_back = pushed;
  parse = λ s. failed s;
  dump = λ j. got [];
  is_object = has_fields;
  find = find_field;
  put = field;
  index_error = λ j. [];
  get_text = text_of;
  get_bool = truth_of;
  get_double = number_of;
  to_int = λ z. some z;
  same = λ i j. same_got (text_of i) (text_of j);
  find-IsObject = find_field-IsObject;
  find-put = λ k v j h. find_field-put k v j;
  find-put_other = λ k l v j h. find_field-put_other k l v j;
  get_text-text = λ s. refl;
}
