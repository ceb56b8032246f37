-- ===== src/Routing/Termination.antt =====
-- kubo-master/routing/delegated.go: the routers that are still to be visited become fewer.
use bock_ipfs.Base.Dict.{Dict, lookup}
use bock_ipfs.Base.{
  if◌then◌else◌, string_eq, contains, ℕ, ◌+◌, ◌≤◌, ◌<◌, String, ◌≡◌, true, false, some, List, [],
  ◌∷◌, arith, eq_iff,
}

-- how many entries of a map have a key that was not visited
abbrev pub pending {ℓ} : {V : Type ℓ} → List String → List (String × V) → ℕ
pending visited [] = 0
pending visited ((k, v) ∷ m) = (if contains visited k then 0 else 1) + pending visited m

pub pending-le {ℓ} :
    {V : Type ℓ} (visited visited' : List String) (m : List (String × V))
    → ((k : String) → contains visited k ≡ true → contains visited' k ≡ true)
    → pending visited' m ≤ pending visited m
pending-le visited visited' [] g = omega arith
pending-le visited visited' ((k, v) ∷ m) g = ground (arith, g k, pending-le visited visited' m g)

pub pending-lt :
    {V : Type 0} (visited : List String) (name : String) (v : V) (m : Dict String V)
    → lookup name m ≡ some v
    → contains visited name ≡ false
    → pending (name ∷ visited) m < pending visited m
unfolding lookup
pending-lt visited name v [] found new = cc
pending-lt visited name v ((k, w) ∷ m) found new = ground (
  arith,
  eq_iff k name,
  eq_iff name k,
  pending-lt visited name v m,
  pending-le visited (name ∷ visited) m
      (λ (j : String) (there : contains visited j ≡ true). ground arith),
)
