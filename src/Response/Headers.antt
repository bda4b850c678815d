-- ===== src/Response/Headers.antt =====
-- The header list of a response, and the content type that `AutoSetType` gives.
use mathlib.Core.Option.{some-injective}
use calabash.Base.{
  ℕ, ◌+◌, ◌≤◌, ◌≡◌, refl, ap, ◌∙◌, sym, Bool, true, false, ◌&&◌, ◌||◌, not, some, List, [], ◌∷◌,
  Bytes, codes, arith, Bool-cases, inl, inr, if◌then◌else◌, is_empty, ◌==◌, bytes_eq, bytes_eq_iff,
  Option-cases, subst,
}
use calabash.Dict.{lookup, assign, lookup-assign}
use calabash.Response.{Response, Types, set_header, set_type, type_of, auto_set_type, content_type}

-- How many headers have the name.
unfoldable pub occurrences : Bytes → List (Bytes × Bytes) → ℕ
occurrences k [] = 0
occurrences k ((j, v) ∷ rest) = (if bytes_eq j k then 1 else 0) + occurrences k rest

occurrences-assign :
    (j k : Bytes) (v : Bytes) (headers : List (Bytes × Bytes))
    → occurrences j (assign k v headers)
      ≡ (if bytes_eq k j && (occurrences j headers == 0) then 1 else occurrences j headers)
unfolding occurrences assign
occurrences-assign j k v [] = ground arith
occurrences-assign j k v ((i, w) ∷ rest) =
    ground
      (arith, bytes_eq_iff i k, bytes_eq_iff k j, bytes_eq_iff i j, occurrences-assign j k v rest)

-- After `SetHeader` the name has that value, every other name what it had, and no name stands twice
-- if none did.
pub set_header-sets :
    (k v j : Bytes) (r : Response)
    → occurrences j r.headers ≤ 1
    → (lookup j (set_header k v r).headers ≡ (if bytes_eq k j then some v else lookup j r.headers))
      × (occurrences j (set_header k v r).headers ≤ 1)
unfolding set_header
set_header-sets k v j r h =
    (lookup-assign k j v r.headers, ground (arith, occurrences-assign j k v r.headers))

dotted : Bytes → Bool
dotted [] = false
dotted (c ∷ rest) = c == 46

-- Values that no key starts like: keys start with a dot, values do not; an inserted key has no value.
unfoldable pub all_plain : Types → Bool
unfolding dotted
all_plain [] = true
all_plain ((k, v) ∷ rest) = not (dotted v) && (dotted k || is_empty v) && all_plain rest

is_empty-nil : (xs : Bytes) → is_empty xs ≡ true → xs ≡ []
is_empty-nil [] h = refl
is_empty-nil (x ∷ xs) h = absurd (ground arith)

value-plain :
    (k v : Bytes) (types : Types)
    → all_plain types ≡ true
    → lookup k types ≡ some v
    → dotted v ≡ false
unfolding all_plain lookup
value-plain k v [] h e = absurd (ground arith)
value-plain k v ((j, w) ∷ rest) h e = elim (Bool-cases (bytes_eq j k)) [
  | inl found ↦
      let same_value : w ≡ v = some-injective w v (sym (rw found refl) ∙ e) in
      subst (λ x. dotted x ≡ false) same_value (ground (arith, h))
  | inr other ↦ value-plain k v rest (ground (arith, h)) (sym (rw other refl) ∙ e)
]

plain-value_empty :
    (k v : Bytes) (types : Types)
    → all_plain types ≡ true
    → dotted k ≡ false
    → lookup k types ≡ some v
    → v ≡ []
unfolding all_plain lookup
plain-value_empty k v [] h p e = absurd (ground arith)
plain-value_empty k v ((j, w) ∷ rest) h p e = elim (Bool-cases (bytes_eq j k)) [
  | inl found ↦
      let same_value : w ≡ v = some-injective w v (sym (rw found refl) ∙ e) in
      let same_key : j ≡ k = (bytes_eq_iff j k).0 found in
      let not_dotted : dotted j ≡ false = ap dotted same_key ∙ p in
      let none_there : is_empty w ≡ true = ground (arith, h, not_dotted) in
      sym same_value ∙ is_empty-nil w none_there
  | inr other ↦ plain-value_empty k v rest (ground (arith, h)) p (sym (rw other refl) ∙ e)
]

assign-plain :
    (k : Bytes) (types : Types) → all_plain types ≡ true → all_plain (assign k [] types) ≡ true
unfolding all_plain assign
assign-plain k [] h = ground arith
assign-plain k ((j, w) ∷ rest) h = ground (arith, assign-plain k rest)

-- `operator[]` at a name without a dot gives no value.
type_of-plain :
    (k : Bytes) (types : Types)
    → all_plain types ≡ true
    → dotted k ≡ false
    → ((type_of k types).0 ≡ []) × (all_plain (type_of k types).1 ≡ true)
unfolding type_of
type_of-plain k types h p = elim (Option-cases (lookup k types)) [
  | inl e ↦ rw e (refl, assign-plain k types h)
  | inr (v, e) ↦ rw e (plain-value_empty k v types h p e, h)
]

set_type-plain :
    (k : Bytes) (types : Types) (r : Response)
    → all_plain types ≡ true
    → dotted k ≡ false
    → (lookup content_type (set_type k types r).0.headers ≡ some [])
      × (all_plain (set_type k types r).1 ≡ true)
unfolding set_type set_header
set_type-plain k types r h p =
    let found = type_of-plain k types h p in
    (
      lookup-assign content_type content_type (type_of k types).0 r.headers ∙ ap some found.0,
      found.1,
    )

-- With a table like the server's, whatever types were looked up before, `AutoSetType` gives every file
-- an empty content type: it looks the value it found up as if it were an extension.
pub auto_set_type-empty :
    (extension : Bytes → Bytes) (path : Bytes) (types : Types) (r : Response)
    → all_plain types ≡ true
    → (let done = auto_set_type extension path types r in
        (lookup content_type done.0.headers ≡ some []) × (all_plain done.1 ≡ true))
unfolding auto_set_type dotted
auto_set_type-empty extension path types r h = elim (Option-cases (lookup (extension path) types)) [
  | inl e ↦ rw e (set_type-plain (codes "application/octet-stream") types r h refl)
  | inr (v, e) ↦ rw e (set_type-plain v types r h (value-plain (extension path) v types h e))
]
