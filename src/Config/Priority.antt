-- ===== src/Config/Priority.antt =====
-- config/types.go: `Priority`, which is positive, default (0) or disabled (-1).
use bock_ipfs.Base.{
  if◌then◌else◌, ℕ, zero, suc, ◌≡◌, refl, ◌≢◌, ◌↔◌, ◌⊎◌, inl, inr, Bool, true, false, Option, none,
  some, arith,
}
use bock_ipfs.Base.Results.{Result, ok, err}
use bock_ipfs.Base.Int.{ℤ, pos, negsuc, int_beq, is_positive, is_negative, InInt64}
use bock_ipfs.Config.Json.{
  Json, null, boolean, integer, number, text, array, object, JsonError, invalid_priority,
  true_priority, not_positive, read_int64,
}

-- the constants of the type, which is an `int64`
abbrev pub default_priority : ℤ
default_priority = pos 0

abbrev pub disabled : ℤ
disabled = negsuc 0

-- the cases of `Priority.WithDefault` for a value that stands for itself
positive_priority : ℤ → Option (ℤ × Bool)
positive_priority p = if is_positive p then some (p, true) else none

-- `Priority.WithDefault`: the priority and whether it is enabled, with none for a panic
pub with_default : ℤ → ℤ → Option (ℤ × Bool)
unfolding positive_priority
with_default p default =
    if int_beq p disabled
    then some (pos 0, false)
    else if int_beq p default_priority
    then (if int_beq default disabled
        then some (pos 0, false)
        else if int_beq default default_priority
        then some (pos 0, true)
        else positive_priority default)
    else positive_priority p

-- `Priority.MarshalJSON`
unfoldable pub marshal : ℤ → Result JsonError Json
marshal p =
    if is_positive p
    then ok (integer p)
    else if int_beq p default_priority
    then ok null
    else if int_beq p disabled
    then ok (boolean false)
    else err (invalid_priority p)

read_priority : Result JsonError ℤ → Result JsonError ℤ
read_priority (err e) = err e
read_priority (ok p) = if is_positive p then ok p else err (not_positive p)

-- `Priority.UnmarshalJSON`
unfoldable pub unmarshal : Json → Result JsonError ℤ
unfolding read_priority read_int64
unmarshal null = ok default_priority
unmarshal (boolean b) = if b then err true_priority else ok disabled
unmarshal j = read_priority (read_int64 j)

round_trip : (p : ℤ) (j : Json) → InInt64 p → (marshal p ≡ ok j) ↔ (unmarshal j ≡ ok p)
unfolding marshal unmarshal
round_trip (pos p) j range =
    elim j as (λ j. (marshal (pos p) ≡ ok j) ↔ (unmarshal j ≡ ok (pos p))) [
      | null ↦ ground arith
      | boolean true ↦ ground arith
      | boolean false ↦ ground arith
      | integer (pos z) ↦ ground (arith, range)
      | integer (negsuc z) ↦ ground (arith, range)
      | number z ↦ ground arith
      | text z ↦ ground arith
      | array z ↦ ground arith
      | object ↦ ground arith
    ]
round_trip (negsuc p) j range =
    elim j as (λ j. (marshal (negsuc p) ≡ ok j) ↔ (unmarshal j ≡ ok (negsuc p))) [
      | null ↦ ground arith
      | boolean true ↦ ground arith
      | boolean false ↦ ground arith
      | integer (pos z) ↦ ground (arith, range)
      | integer (negsuc z) ↦ ground (arith, range)
      | number z ↦ ground arith
      | text z ↦ ground arith
      | array z ↦ ground arith
      | object ↦ ground arith
    ]

unmarshal_sign : (j : Json) (p : ℤ) → unmarshal j ≡ ok p → (is_negative p ≡ false) ⊎ (p ≡ disabled)
unfolding unmarshal
unmarshal_sign null p h = inl (ground (arith, h))
unmarshal_sign (boolean true) p h = absurd (cc h)
unmarshal_sign (boolean false) p h = inr (ground (arith, h))
unmarshal_sign (integer (pos z)) p h = inl (ground (arith, h))
unmarshal_sign (integer (negsuc z)) p h = absurd (ground (arith, h))
unmarshal_sign (number z) p h = absurd (cc h)
unmarshal_sign (text z) p h = absurd (cc h)
unmarshal_sign (array z) p h = absurd (cc h)
unmarshal_sign object p h = absurd (cc h)

-- For a value of the type, writing it gives a JSON value exactly if reading that value gives it
-- back. A value below -1 is not written at all, and none is ever read.
pub priority_round_trip :
    (p : ℤ)
    → InInt64 p
    → ((j : Json) → (marshal p ≡ ok j) ↔ (unmarshal j ≡ ok p))
      × ((n : ℕ)
          → p ≡ negsuc (suc n)
          → (marshal p ≡ err (invalid_priority p)) × ((j : Json) → unmarshal j ≢ ok p))
unfolding marshal
priority_round_trip p range = (
  λ j. round_trip p j range,
  λ n low. (
    ground (arith, low),
    λ j read. elim (unmarshal_sign j p read) [
      | inl h ↦ absurd (ground (arith, low, h))
      | inr h ↦ absurd (ground (arith, low, h))
    ],
  ),
)

with_default_total :
    (p d : ℤ)
    → (is_negative p ≡ false) ⊎ (p ≡ disabled)
    → (is_negative d ≡ false) ⊎ (d ≡ disabled)
    → (r : ℤ × Bool) × (with_default p d ≡ some r) × (is_negative r.0 ≡ false)
unfolding with_default
with_default_total (negsuc p) d (inl h) _ = absurd (cc h)
with_default_total (negsuc p) d (inr h) _ = ((pos 0, false), ground (arith, h), refl)
with_default_total (pos zero) (negsuc d) _ (inl h) = absurd (cc h)
with_default_total (pos zero) (negsuc d) _ (inr h) = ((pos 0, false), ground (arith, h), refl)
with_default_total (pos zero) (pos zero) _ _ = ((pos 0, true), refl, refl)
with_default_total (pos zero) (pos (suc d)) _ _ = ((pos (suc d), true), ground arith, refl)
with_default_total (pos (suc p)) d _ _ = ((pos (suc p), true), ground arith, refl)

-- Priorities that were read from JSON, one as the default of the other, never make `WithDefault`
-- panic, and what is enabled is not negative.
pub priority_with_default :
    (i j : Json) (p d : ℤ)
    → unmarshal i ≡ ok p
    → unmarshal j ≡ ok d
    → (r : ℤ × Bool) × (with_default p d ≡ some r) × (is_negative r.0 ≡ false)
unfolding unmarshal with_default
priority_with_default i j p d hp hd =
    with_default_total p d (unmarshal_sign i p hp) (unmarshal_sign j d hd)
