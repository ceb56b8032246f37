-- ===== src/Pins/Verify.antt =====
-- kubo-master/core/coreapi/pin.go: `Verify` and its recursive `checkPin`, which remembers the status
-- of every node that it has seen.
use bock_ipfs.Base.Results.{Result, ok, err}
use bock_ipfs.Base.Dict.{Dict, lookup, insert}
use bock_ipfs.Base.{
  if◌then◌else◌, Eq, ℕ, zero, suc, String, Bool, true, false, Option, none, some, List, [], ◌∷◌,
  ◌++◌,
}

-- `type badNode`: a node and the error of fetching its links
pub record BadNode {ℓ} (Cid : Type ℓ) : Type ℓ where
  pub cid : Cid
  pub error : String

-- `type pinStatus`, without the error of the pin stream
pub record PinStatus {ℓ} (Cid : Type ℓ) : Type ℓ where
  pub cid : Cid
  pub is_ok : Bool
  pub bad_nodes : List (BadNode Cid)

-- What `Verify` sends for a recursive pin: its status, or the error of the stream.
pub data Verified {ℓ} (Cid : Type ℓ) : Type ℓ where
  status : PinStatus Cid → Verified Cid
  stream_error : String → Verified Cid

-- the status of a node whose links cannot be fetched
abbrev pub bad_status {ℓ} : {Cid : Type ℓ} → Cid → String → PinStatus Cid
bad_status root e = record {
  cid = root;
  is_ok = false;
  bad_nodes = record { cid = root; error = e } ∷ [];
}

abbrev pub good_status {ℓ} : {Cid : Type ℓ} → Cid → PinStatus Cid
good_status root = record { cid = root; is_ok = true; bad_nodes = [] }

-- the body of the loop over the links: the status of a child is added
unfoldable pub add_child {ℓ} : {Cid : Type ℓ} → PinStatus Cid → PinStatus Cid → PinStatus Cid
add_child st res =
    if res.is_ok then st else record st { is_ok = false; bad_nodes = st.bad_nodes ++ res.bad_nodes }

-- the type of `visited`
abbrev pub Visited : Type 0 → Type 0
Visited Cid = Dict Cid (PinStatus Cid)

-- The loop over the links, with the recursive call as an argument. `none` means out of fuel.
unfoldable pub check_links :
    {Cid : Type 0}
    → (Visited Cid → Cid → Visited Cid × Option (PinStatus Cid))
    → Visited Cid
    → PinStatus Cid
    → List Cid
    → Visited Cid × Option (PinStatus Cid)
check_links check visited st [] = (visited, some st)
check_links check visited st (lnk ∷ links) =
    let (visited', res) = check visited lnk in
    elim res [
      | none ↦ (visited', none)
      | some r ↦ check_links check visited' (add_child st r) links
    ]

module _ {Cid : Type 0} ⦃e : Eq Cid⦄ where
  -- `visited[root] = status`
  unfoldable pub remember :
      Cid → Visited Cid × Option (PinStatus Cid) → Visited Cid × Option (PinStatus Cid)
  remember root (visited, none) = (visited, none)
  remember root (visited, some st) = (insert root st visited, some st)

module _ {Cid : Type 0} ⦃e : Eq Cid⦄ (get_links : Cid → Result String (List Cid)) where
  -- `checkPin`
  unfoldable pub check_pin : ℕ → Visited Cid → Cid → Visited Cid × Option (PinStatus Cid)
  check_pin zero visited root = (visited, none)
  check_pin (suc fuel) visited root = elim (lookup root visited) [
    | some st ↦ (visited, some st)
    | none ↦ elim (get_links root) [
      | err x ↦ (insert root (bad_status root x) visited, some (bad_status root x))
      | ok links ↦
          remember root (check_links (λ v c. check_pin fuel v c) visited (good_status root) links)
    ]
  ]

  -- The goroutine of `Verify` over the stream of recursive pins. `sends` says of each status
  -- whether it is received before the context is done.
  unfoldable pub verify_loop :
      ℕ → Visited Cid → List (Result String Cid) → List Bool → List (Verified Cid)
  verify_loop fuel visited [] sends = []
  verify_loop fuel visited (p ∷ pins) [] = []
  verify_loop fuel visited (p ∷ pins) (false ∷ sends) = []
  verify_loop fuel visited (err x ∷ pins) (true ∷ sends) =
      stream_error x ∷ verify_loop fuel visited pins sends
  verify_loop fuel visited (ok root ∷ pins) (true ∷ sends) =
      let (visited', res) = check_pin fuel visited root in
      elim res [ none ↦ [] | some st ↦ status st ∷ verify_loop fuel visited' pins sends ]

  -- `Verify`
  unfoldable pub verify : ℕ → List (Result String Cid) → List Bool → List (Verified Cid)
  verify fuel pins sends = verify_loop fuel [] pins sends
