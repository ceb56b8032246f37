-- ===== src/Config/Strings.antt =====
-- config/types.go: `Strings`, a list that is written as one text where it has one element.
use bock_ipfs.Base.{
  str_eq, if◌then◌else◌, Bool-cases, String, ◌≡◌, refl, ap, ◌≢◌, inl, inr, List, [], ◌∷◌, arith,
  eq_iff,
}
use bock_ipfs.Base.Results.{Result, ok, err}
use bock_ipfs.Config.Json.{
  Json, null, text, array, JsonError, read_string, read_strings, write_strings, read-write_strings,
}

-- `Strings.UnmarshalJSON`
pub unmarshal : Json → Result JsonError (List String)
unfolding read_string
unmarshal (array js) = read_strings js
unmarshal j = elim (read_string j) [
  | err e ↦ err e
  | ok value ↦ if str_eq value "" then ok [] else ok (value ∷ [])
]

-- `Strings.MarshalJSON`
pub marshal : List String → Json
marshal [] = null
marshal (s ∷ []) = text s
marshal (s ∷ t ∷ ss) = array (write_strings (s ∷ t ∷ ss))

-- Reading what was written gives the list back, but for the list of one empty text, which is read
-- as the empty list.
pub unmarshal-marshal_strings :
    (o : List String)
    → (o ≢ "" ∷ [] → unmarshal (marshal o) ≡ ok o) × (unmarshal (marshal ("" ∷ [])) ≡ ok [])
unfolding unmarshal marshal
unmarshal-marshal_strings [] = ((λ ne. refl), refl)
unmarshal-marshal_strings (s ∷ []) = (
  (λ ne. elim (Bool-cases (str_eq s "")) [
    | inl same ↦ absurd (ne (ap (λ t. t ∷ []) ((eq_iff s "").0 same)))
    | inr full ↦ ground (arith, full)
  ]),
  refl,
)
unmarshal-marshal_strings (s ∷ t ∷ ss) = ((λ ne. read-write_strings (s ∷ t ∷ ss)), refl)
