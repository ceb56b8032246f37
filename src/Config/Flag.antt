-- ===== src/Config/Flag.antt =====
-- config/types.go: `Flag`, which is false, default or true.
use bock_ipfs.Base.{if◌then◌else◌, ◌≡◌, ◌↔◌, Bool, true, false, Option, none, some, arith}
use bock_ipfs.Base.Results.{Result, ok, err}
use bock_ipfs.Base.Int.{ℤ, pos, negsuc, int_beq}
use bock_ipfs.Config.Json.{
  Json, null, boolean, integer, number, text, array, object, JsonError, invalid_flag, not_a_flag,
}

-- the constants of the type, which is an `int8`
abbrev pub flag_false : ℤ
flag_false = negsuc 0

abbrev pub flag_default : ℤ
flag_default = pos 0

abbrev pub flag_true : ℤ
flag_true = pos 1

-- `Flag.WithDefault`, with none for a panic
pub with_default : ℤ → Bool → Option Bool
with_default f default_value =
    if int_beq f flag_false
    then some false
    else if int_beq f flag_default
    then some default_value
    else if int_beq f flag_true
    then some true
    else none

-- `Flag.MarshalJSON`
pub marshal : ℤ → Result JsonError Json
marshal f =
    if int_beq f flag_default
    then ok null
    else if int_beq f flag_true
    then ok (boolean true)
    else if int_beq f flag_false
    then ok (boolean false)
    else err (invalid_flag f)

-- `Flag.UnmarshalJSON`
unfoldable pub unmarshal : Json → Result JsonError ℤ
unmarshal null = ok flag_default
unmarshal (boolean b) = if b then ok flag_true else ok flag_false
unmarshal j = err (not_a_flag j)

-- A flag and a JSON value are read from and written as each other in both directions: exactly what
-- is read from a value is written as that value.
pub flag_round_trip : (f : ℤ) (j : Json) → (marshal f ≡ ok j) ↔ (unmarshal j ≡ ok f)
unfolding marshal unmarshal
flag_round_trip (pos f) j = elim j as (λ j. (marshal (pos f) ≡ ok j) ↔ (unmarshal j ≡ ok (pos f))) [
  | null ↦ ground arith
  | boolean true ↦ ground arith
  | boolean false ↦ ground arith
  | integer z ↦ ground arith
  | number z ↦ ground arith
  | text z ↦ ground arith
  | array z ↦ ground arith
  | object ↦ ground arith
]
flag_round_trip (negsuc f) j =
    elim j as (λ j. (marshal (negsuc f) ≡ ok j) ↔ (unmarshal j ≡ ok (negsuc f))) [
      | null ↦ ground arith
      | boolean true ↦ ground arith
      | boolean false ↦ ground arith
      | integer z ↦ ground arith
      | number z ↦ ground arith
      | text z ↦ ground arith
      | array z ↦ ground arith
      | object ↦ ground arith
    ]

-- A flag that was read from JSON never makes `WithDefault` panic: null gives the default and a
-- Boolean itself.
pub flag_with_default :
    (j : Json) (f : ℤ) (d : Bool)
    → unmarshal j ≡ ok f
    → with_default f d ≡ some (elim j [ boolean b ↦ b | _ ↦ d ])
unfolding unmarshal with_default
flag_with_default null f d h = ground (arith, h)
flag_with_default (boolean true) f d h = ground (arith, h)
flag_with_default (boolean false) f d h = ground (arith, h)
flag_with_default (integer z) f d h = absurd (cc h)
flag_with_default (number z) f d h = absurd (cc h)
flag_with_default (text z) f d h = absurd (cc h)
flag_with_default (array z) f d h = absurd (cc h)
flag_with_default object f d h = absurd (cc h)
