-- ===== src/Base/Dict.antt =====
-- Go maps, as association lists: reading, writing, deleting and counting.
use bock_ipfs.Base.Tests.{if◌then◌else◌, Eq}
use Prim.Native.Nat.{ℕ, ◌+◌}
use mathlib.Core.Path.{◌≡◌, refl}
use mathlib.Core.Bool.{Bool, true, false}
use mathlib.Core.Option.{Option, none, some}
use mathlib.Core.List.{List, [], ◌∷◌}
use native.Mathlib.Omega.{arith}

abbrev pub Dict {ℓ} : Type ℓ → Type ℓ → Type ℓ
Dict K V = List (K × V)

module _ {ℓ} {K V : Type ℓ} ⦃e : Eq K⦄ where
  unfoldable pub lookup : K → Dict K V → Option V
  lookup k [] = none
  lookup k ((j, v) ∷ m) = if e.beq j k then some v else lookup k m

  -- `m[k] = v`
  unfoldable pub insert : K → V → Dict K V → Dict K V
  insert k v [] = (k, v) ∷ []
  insert k v ((j, w) ∷ m) = if e.beq j k then (k, v) ∷ m else (j, w) ∷ insert k v m

  -- `delete(m, k)`
  unfoldable pub delete : K → Dict K V → Dict K V
  delete k [] = []
  delete k ((j, w) ∷ m) = let rest = delete k m in if e.beq j k then rest else (j, w) ∷ rest

  -- `_, ok := m[k]`
  unfoldable pub has_key : K → Dict K V → Bool
  unfolding lookup
  has_key k m = elim (lookup k m) [ none ↦ false | some _ ↦ true ]

  pub lookup-insert :
      (k j : K) (v : V) (m : Dict K V)
      → lookup j (insert k v m) ≡ (if e.beq k j then some v else lookup j m)
  unfolding lookup insert
  lookup-insert k j v [] = refl
  lookup-insert k j v ((i, w) ∷ m) =
      ground (arith, e.beq_iff k j, e.beq_iff i k, e.beq_iff i j, lookup-insert k j v m)

  pub lookup-delete :
      (k j : K) (m : Dict K V) → lookup j (delete k m) ≡ (if e.beq k j then none else lookup j m)
  unfolding lookup delete
  lookup-delete k j [] = ground arith
  lookup-delete k j ((i, w) ∷ m) =
      ground (arith, e.beq_iff k j, e.beq_iff i k, e.beq_iff i j, lookup-delete k j m)

-- The laws of the three operations, for `simp` and `grind`.
pub ruleset dict_laws = (lookup-insert, lookup-delete)

module _ {ℓ} {K V : Type ℓ} ⦃e : Eq K⦄ where
  -- No key is listed twice.
  abbrev pub IsUnique : Dict K V → Type ℓ
  IsUnique [] = Unit
  IsUnique ((k, v) ∷ m) = (lookup k m ≡ none) × IsUnique m

  pub insert-IsUnique : (k : K) (v : V) (m : Dict K V) → IsUnique m → IsUnique (insert k v m)
  unfolding lookup insert
  insert-IsUnique k v [] h = (refl, tt)
  insert-IsUnique k v ((j, w) ∷ m) h =
      ground (arith, lookup-insert k j v m, e.beq_iff j k, e.beq_iff k j, insert-IsUnique k v m h.1)

  pub delete-IsUnique : (k : K) (m : Dict K V) → IsUnique m → IsUnique (delete k m)
  unfolding delete
  delete-IsUnique k [] h = tt
  delete-IsUnique k ((j, w) ∷ m) h =
      ground (arith, lookup-delete k j m, e.beq_iff j k, e.beq_iff k j, delete-IsUnique k m h.1)

  pub delete_absent : (k : K) (m : Dict K V) → lookup k m ≡ none → delete k m ≡ m
  unfolding lookup delete
  delete_absent k [] h = refl
  delete_absent k ((j, w) ∷ m) h = ground (arith, delete_absent k m)

-- How many entries have a value that passes a test.
module _ {ℓ} {K V : Type ℓ} (test : V → Bool) where
  abbrev pub count : Dict K V → ℕ
  count [] = 0
  count ((k, v) ∷ m) = (if test v then 1 else 0) + count m

module _ {ℓ} {K V : Type ℓ} ⦃e : Eq K⦄ (test : V → Bool) where
  pub count-insert_new :
      (k : K) (v : V) (m : Dict K V)
      → lookup k m ≡ none
      → count test (insert k v m) ≡ count test m + (if test v then 1 else 0)
  unfolding lookup insert
  count-insert_new k v [] h = ground arith
  count-insert_new k v ((j, w) ∷ m) h = ground (arith, count-insert_new k v m)

  pub count-delete :
      (k : K) (v : V) (m : Dict K V)
      → IsUnique m
      → lookup k m ≡ some v
      → count test (delete k m) + (if test v then 1 else 0) ≡ count test m
  unfolding lookup delete
  count-delete k v [] u h = cc
  count-delete k v ((j, w) ∷ m) u h =
      ground (arith, e.beq_iff j k, count-delete k v m u.1, delete_absent k m)

module _ {ℓ} {K V : Type ℓ} ⦃e : Eq K⦄ where
  pub insert-insert : (k : K) (v w : V) (m : Dict K V) → insert k v (insert k w m) ≡ insert k v m
  unfolding insert
  insert-insert k v w [] = ground (arith, e.beq_iff k k)
  insert-insert k v w ((j, u) ∷ m) =
      ground (arith, e.beq_iff k k, e.beq_iff j k, insert-insert k v w m)

  pub insert_same : (k : K) (v : V) (m : Dict K V) → lookup k m ≡ some v → insert k v m ≡ m
  unfolding insert lookup
  insert_same k v [] h = cc
  insert_same k v ((j, u) ∷ m) h = ground (arith, e.beq_iff j k, insert_same k v m)

  pub lookup-insert_self : (k : K) (v : V) (m : Dict K V) → lookup k (insert k v m) ≡ some v
  lookup-insert_self k v m = ground (arith, lookup-insert k k v m, e.beq_iff k k)

  pub lookup-delete_self : (k : K) (m : Dict K V) → lookup k (delete k m) ≡ none
  lookup-delete_self k m = ground (arith, lookup-delete k k m, e.beq_iff k k)
