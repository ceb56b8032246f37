-- ===== src/Gc/Memory.antt =====
-- An in-memory instance of the libraries that the collector uses: it shows that what is assumed of
-- them can hold, and runs in tests. CIDs are records of numbers, sets are lists, and the walk is a
-- worklist that gives up, with an error, after a number of steps.
mod Walking
pub mod Lawful
use bock_ipfs.Base.{
  ltb, ◌==◌, if◌then◌else◌, Eq, contains, ℕ, zero, suc, ◌≡◌, ◌↔◌, Bool, true, false, ◌&&◌, none,
  some, List, [], ◌∷◌, ◌++◌, arith,
}
use bock_ipfs.Gc.Library.{Fetched, got, fetch_failed, Walked, Library}

pub record Node : Type 0 where
  pub version : ℕ
  pub codec : ℕ
  pub hash : ℕ

abbrev pub node_beq : Node → Node → Bool
node_beq a b = a.version == b.version && (a.codec == b.codec && a.hash == b.hash)

pub node_beq_iff : (a b : Node) → (node_beq a b ≡ true) ↔ (a ≡ b)
node_beq_iff a b = ground arith

instance abbrev pub node_eq : Eq Node
node_eq = record { beq = node_beq; beq_iff = node_beq_iff }

abbrev pub NodeSet : Type 0
NodeSet = List Node

abbrev pub has_node : NodeSet → Node → Bool
has_node s c = contains s c

-- A worklist walk; `cons` puts what was asked first in front.
abbrev pub asked_first : Node → Walked Node NodeSet → Walked Node NodeSet
asked_first c w = record w { asked = c ∷ w.asked }

unfoldable pub walk_from :
    ℕ
    → (Node → Fetched Node)
    → (Node → NodeSet → NodeSet × Bool)
    → List Node
    → NodeSet
    → Walked Node NodeSet
walk_from zero get visit todo s = record {
  set = s;
  asked = [];
  err = some "context deadline exceeded";
}
walk_from (suc fuel) get visit [] s = record { set = s; asked = []; err = none }
walk_from (suc fuel) get visit (c ∷ todo) s = elim ((visit c s).1) [
  | false ↦ walk_from fuel get visit todo s
  | true ↦ elim (get c) [
    | fetch_failed e ↦ record { set = (visit c s).0; asked = c ∷ []; err = some e }
    | got ls ↦ asked_first c (walk_from fuel get visit (ls ++ todo) (visit c s).0)
  ]
]

-- The instance; a walk gives up after a thousand steps. A CID is valid if its hash is below 100.
abbrev pub memory : Library
memory = record {
  Cid = Node;
  Hash = ℕ;
  version = λ c. c.version;
  codec = λ c. c.codec;
  hash = λ c. c.hash;
  new_cid_v1 = λ codec hash. record { version = 1; codec = codec; hash = hash };
  raw_codec = 0x55;
  CidSet = NodeSet;
  new_set = [];
  add = λ c s. c ∷ s;
  has = has_node;
  elements = λ s. s;
  validate_cid = λ c. if ltb c.hash 100 then none else some "potentially insecure hash function";
  below_minimum_hash_length = "below minimum hash length";
  possibly_insecure_hash_function = "potentially insecure hash function";
  walk = λ get root visit s. walk_from 1000 get visit (root ∷ []) s;
}
