-- ===== src/Config/Optional.antt =====
-- config/types.go: `OptionalInteger` and `OptionalString`, a pointer that may be nil.
use bock_ipfs.Base.{String, ◌≡◌, ◌↔◌, Bool, true, false, Option, none, some, arith}
use bock_ipfs.Base.Results.{Result, ok, err}
use bock_ipfs.Base.Int.{ℤ, pos, negsuc, InInt64}
use bock_ipfs.Config.Json.{
  Json, null, boolean, integer, number, text, array, object, JsonError, read_int64, read_string,
}

-- `OptionalInteger.WithDefault` and `OptionalString.WithDefault`
pub with_default : {A : Type 0} → Option A → A → A
with_default none default_value = default_value
with_default (some v) default_value = v

-- `OptionalInteger.IsDefault` and `OptionalString.IsDefault`
pub is_default : {A : Type 0} → Option A → Bool
is_default none = true
is_default (some v) = false

-- `OptionalInteger.MarshalJSON`
pub marshal_integer : Option ℤ → Json
marshal_integer none = null
marshal_integer (some v) = integer v

-- `OptionalInteger.UnmarshalJSON`
pub unmarshal_integer : Json → Result JsonError (Option ℤ)
unfolding read_int64
unmarshal_integer null = ok none
unmarshal_integer j = elim (read_int64 j) [ err e ↦ err e | ok v ↦ ok (some v) ]

-- `OptionalString.MarshalJSON`
pub marshal_string : Option String → Json
marshal_string none = null
marshal_string (some v) = text v

-- `OptionalString.UnmarshalJSON`
pub unmarshal_string : Json → Result JsonError (Option String)
unfolding read_string
unmarshal_string null = ok none
unmarshal_string j = elim (read_string j) [ err e ↦ err e | ok v ↦ ok (some v) ]

abbrev AllInt64 : Option ℤ → Type 0
AllInt64 none = Unit
AllInt64 (some v) = InInt64 v

-- An optional integer in the range of an int64 is written as a JSON value exactly if it is read from
-- that value.
pub integer_round_trip :
    (o : Option ℤ) (j : Json) → AllInt64 o → (marshal_integer o ≡ j) ↔ (unmarshal_integer j ≡ ok o)
unfolding marshal_integer unmarshal_integer
integer_round_trip none j range =
    elim j as (λ j. (marshal_integer (none) ≡ j) ↔ (unmarshal_integer j ≡ ok (none))) [
      | null ↦ ground arith
      | boolean b ↦ ground arith
      | integer (pos z) ↦ ground arith
      | integer (negsuc z) ↦ ground arith
      | number z ↦ ground arith
      | text z ↦ ground arith
      | array z ↦ ground arith
      | object ↦ ground arith
    ]
integer_round_trip (some (pos v)) j range =
    elim j
      as (λ j. (marshal_integer (some (pos v)) ≡ j) ↔ (unmarshal_integer j ≡ ok (some (pos v)))) [
        | null ↦ ground arith
        | boolean b ↦ ground arith
        | integer (pos z) ↦ ground (arith, range)
        | integer (negsuc z) ↦ ground (arith, range)
        | number z ↦ ground arith
        | text z ↦ ground arith
        | array z ↦ ground arith
        | object ↦ ground arith
      ]
integer_round_trip (some (negsuc v)) j range =
    elim j
      as (λ j.
        (marshal_integer (some (negsuc v)) ≡ j) ↔ (unmarshal_integer j ≡ ok (some (negsuc v)))) [
          | null ↦ ground arith
          | boolean b ↦ ground arith
          | integer (pos z) ↦ ground (arith, range)
          | integer (negsuc z) ↦ ground (arith, range)
          | number z ↦ ground arith
          | text z ↦ ground arith
          | array z ↦ ground arith
          | object ↦ ground arith
        ]

-- An optional text is written as a JSON value exactly if it is read from that value.
pub string_round_trip :
    (o : Option String) (j : Json) → (marshal_string o ≡ j) ↔ (unmarshal_string j ≡ ok o)
unfolding marshal_string unmarshal_string
string_round_trip none j =
    elim j as (λ j. (marshal_string (none) ≡ j) ↔ (unmarshal_string j ≡ ok (none))) [
      | null ↦ ground arith
      | boolean b ↦ ground arith
      | integer (pos z) ↦ ground arith
      | integer (negsuc z) ↦ ground arith
      | number z ↦ ground arith
      | text z ↦ ground arith
      | array z ↦ ground arith
      | object ↦ ground arith
    ]
string_round_trip (some v) j =
    elim j as (λ j. (marshal_string (some v) ≡ j) ↔ (unmarshal_string j ≡ ok (some v))) [
      | null ↦ ground arith
      | boolean b ↦ ground arith
      | integer (pos z) ↦ ground arith
      | integer (negsuc z) ↦ ground arith
      | number z ↦ ground arith
      | text z ↦ ground arith
      | array z ↦ ground arith
      | object ↦ ground arith
    ]
