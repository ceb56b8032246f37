-- ===== src/Gc/Library.antt =====
-- What gc.go takes from other libraries: CIDs and sets of them (go-cid), the validation of CIDs
-- (verifcid), the links of a node (go-ipld-format) and the walk over a graph (merkledag).
use bock_ipfs.Base.{All, In, ℕ, String, ◌≡◌, ◌↔◌, ◌⊎◌, Bool, true, false, not, Option, none, List}

-- What `ipld.GetLinks` returns; `not_found` is an error of which `ipld.IsNotFound` is true.
pub data Links (Cid : Type 0) : Type 0 where
  links : List Cid → Links Cid
  not_found link_error : String → Links Cid

-- What the function returns that a walk calls to get the links of a node.
pub data Fetched (Cid : Type 0) : Type 0 where
  got : List Cid → Fetched Cid
  fetch_failed : String → Fetched Cid

-- What a walk leaves: the set that its `visit` keeps, the nodes whose links it asked for, and its
-- error.
pub record Walked (Cid CidSet : Type 0) : Type 0 where
  pub set : CidSet
  pub asked : List Cid
  pub err : Option String

-- A node is reached from a root through the links that `get` returns.
pub data Reached {Cid : Type 0} (get : Cid → Fetched Cid) (root : Cid) : Cid → Type 0 where
  at_root : Reached get root root
  via :
      {c d : Cid} (ls : List Cid)
      → Reached get root c
      → get c ≡ got ls
      → In d ls
      → Reached get root d

pub record Library : Type 1 where
  pub Cid : Type 0
  pub Hash : Type 0
  pub version : Cid → ℕ
  pub codec : Cid → ℕ
  pub hash : Cid → Hash
  pub new_cid_v1 : ℕ → Hash → Cid
  pub raw_codec : ℕ
  pub CidSet : Type 0
  pub new_set : CidSet
  pub add : Cid → CidSet → CidSet
  pub has : CidSet → Cid → Bool
  pub elements : CidSet → List Cid
  pub validate_cid : Cid → Option String
  pub below_minimum_hash_length : String
  pub possibly_insecure_hash_function : String
  pub walk : (Cid → Fetched Cid) → Cid → (Cid → CidSet → CidSet × Bool) → CidSet → Walked Cid CidSet

-- Documented behaviour of these libraries, for the key that a visit adds: `visit c` adds `key c`
-- and says whether it was new.
module _ (lib : Library) where
  open lib use {Cid, CidSet, new_set, add, has, elements, new_cid_v1, hash, version, codec, walk}

  -- `cid.Set.Visit` at `key c`
  abbrev pub visit_by : (Cid → Cid) → Cid → CidSet → CidSet × Bool
  visit_by key c s = (add (key c) s, not (has s (key c)))

  -- the answer of `get` at a node that was asked: links all of which are in the set
  abbrev pub Covered : (Cid → Cid) → CidSet → Fetched Cid → Type 0
  Covered key s (fetch_failed e) = ⊥
  Covered key s (got ls) = All (λ c. has s (key c) ≡ true) ls

  pub record Laws : Type 0 where
    pub has-new_set : (c : Cid) → has new_set c ≡ false
    pub has-add : (c d : Cid) (s : CidSet) → (has (add d s) c ≡ true) ↔ ((d ≡ c) ⊎ (has s c ≡ true))
    pub has-elements : (c : Cid) (s : CidSet) → (has s c ≡ true) ↔ In c (elements s)
    pub hash-new_cid_v1 : (n : ℕ) (c : Cid) → hash (new_cid_v1 n (hash c)) ≡ hash c
    -- a walk only adds to the set
    pub walk_grows :
        (get : Cid → Fetched Cid) (root : Cid) (key : Cid → Cid) (s : CidSet) (c : Cid)
        → has s c ≡ true
        → has (walk get root (visit_by key) s).set c ≡ true
    -- a walk that ends without an error has visited its root
    pub walk_root :
        (get : Cid → Fetched Cid) (root : Cid) (key : Cid → Cid) (s : CidSet)
        → (walk get root (visit_by key) s).err ≡ none
        → has (walk get root (visit_by key) s).set (key root) ≡ true
    -- it has got the links of every node that it asked, and visited them all
    pub walk_covers :
        (get : Cid → Fetched Cid) (root : Cid) (key : Cid → Cid) (s : CidSet)
        → (walk get root (visit_by key) s).err ≡ none
        → All
            (λ c. Covered key (walk get root (visit_by key) s).set (get c))
            (walk get root (visit_by key) s).asked
    -- it has asked a node for each key that it added
    pub walk_asks :
        (get : Cid → Fetched Cid) (root : Cid) (key : Cid → Cid) (s : CidSet) (k : Cid)
        → (walk get root (visit_by key) s).err ≡ none
        → has (walk get root (visit_by key) s).set k ≡ true
        → (has s k ≡ true) ⊎ ((c : Cid) × In c (walk get root (visit_by key) s).asked × (key c ≡ k))
    -- it adds nothing but the keys of nodes that are reached from the root
    pub walk_stays :
        (get : Cid → Fetched Cid) (root : Cid) (key : Cid → Cid) (s : CidSet) (k : Cid)
        → has (walk get root (visit_by key) s).set k ≡ true
        → (has s k ≡ true) ⊎ ((c : Cid) × Reached get root c × (key c ≡ k))
