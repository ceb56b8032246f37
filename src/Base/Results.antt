-- ===== src/Base/Results.antt =====
-- Results of fallible Go code: a value, or an error with the text that it has.
use mathlib.Core.Path.{◌≡◌, refl}
use mathlib.Core.Option.{Option, none, some}
use mathlib.Core.Logic.{◌⊎◌, inl, inr}

pub data Result {ℓ} (E A : Type ℓ) : Type ℓ where
  ok : A → Result E A
  err : E → Result E A

abbrev pub IsOk {ℓ} : {E A : Type ℓ} → Result E A → Type 0
IsOk (ok a) = Unit {0}
IsOk (err e) = ⊥

pub Result-cases {ℓ} :
    {E A : Type ℓ} (r : Result E A) → ((a : A) × (r ≡ ok a)) ⊎ ((e : E) × (r ≡ err e))
Result-cases (ok a) = inl (a, refl)
Result-cases (err e) = inr (e, refl)

pub ok_injective {ℓ} : {E A : Type ℓ} {a b : A} → ◌≡◌ {A = Result E A} (ok a) (ok b) → a ≡ b
ok_injective h = cc h

-- `if err != nil { return err }` behind a call, in a `do` block.
infixl 5 ◌>>=◌ ◌>>◌
abbrev pub ◌>>=◌ {ℓ} :
    {Failure Value Next : Type ℓ}
    → Result Failure Value
    → (Value → Result Failure Next)
    → Result Failure Next
◌>>=◌ r next = elim r [ ok v ↦ next v | err x ↦ err x ]

abbrev pub ◌>>◌ :
    {Failure Next : Type 0} → Result Failure (Unit {0}) → Result Failure Next → Result Failure Next
◌>>◌ r next = elim r [ ok done ↦ next | err x ↦ err x ]

-- a call that returns only an error
abbrev pub checked : {Failure : Type 0} → Option Failure → Result Failure (Unit {0})
checked (some x) = err x
checked none = ok tt

-- What a chain that succeeds has passed.
pub >>=-IsOk {ℓ} :
    {Failure Value Next : Type ℓ} {w : Next} (r : Result Failure Value)
    (next : Value → Result Failure Next)
    → (r >>= next) ≡ ok w
    → (v : Value) × (r ≡ ok v) × (next v ≡ ok w)
>>=-IsOk (err x) next passed = cc
>>=-IsOk (ok v) next passed = (v, refl, passed)

pub checked-IsOk :
    {Failure Next : Type 0} {w : Next} (o : Option Failure) (next : Result Failure Next)
    → (checked o >> next) ≡ ok w
    → (o ≡ none) × (next ≡ ok w)
checked-IsOk (some x) next passed = cc
checked-IsOk none next passed = (refl, passed)
