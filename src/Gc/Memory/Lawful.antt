-- ===== src/Gc/Memory/Lawful.antt =====
-- The libraries in memory have the documented laws.
use bock_ipfs.Base.{Bool-cases, In, All-map, ◌≡◌, refl, ◌↔◌, ◌⊎◌, inl, inr, true, [], ◌∷◌, arith}
use bock_ipfs.Gc.Library.{Fetched, got, fetch_failed, Walked, at_root, visit_by, Covered, Laws}
use bock_ipfs.Gc.Memory.{Node, node_beq, node_beq_iff, NodeSet, has_node, walk_from, memory}
use bock_ipfs.Gc.Memory.Walking.{
  walked, contains-cons, walk_from_grows, walk_from_marks, Covers, walk_from-Covers, walk_from_asks,
  walk_from_stays,
}

has-add_node :
    (c d : Node) (s : NodeSet) → (has_node (d ∷ s) c ≡ true) ↔ ((d ≡ c) ⊎ (has_node s c ≡ true))
has-add_node c d s = (
  (λ h. elim (Bool-cases (node_beq d c)) [
    | inl same ↦ inl ((node_beq_iff d c).0 same)
    | inr other ↦ inr (ground (arith, h, other))
  ]),
  elim [
    | inl same ↦ ground (arith, (node_beq_iff d c).1 same)
    | inr old ↦ contains-cons (λ a. got []) (λ a. a) s c d old
  ],
)

has_node-In : (c : Node) (s : NodeSet) → (has_node s c ≡ true) ↔ In c s
has_node-In c [] = (λ h. absurd (cc h), λ m. absurd m)
has_node-In c (d ∷ s) = (
  (λ h. elim ((has-add_node c d s).0 h) [
    | inl same ↦ inl same
    | inr old ↦ inr ((has_node-In c s).0 old)
  ]),
  elim [
    | inl same ↦ (has-add_node c d s).1 (inl same)
    | inr m ↦ (has-add_node c d s).1 (inr ((has_node-In c s).1 m))
  ],
)

Covered-of_Covers :
    (get : Node → Fetched Node) (key : Node → Node) (w : Walked Node NodeSet) (f : Fetched Node)
    → Covers get key w f
    → Covered memory key w.set f
Covered-of_Covers get key w (got ls) h = h
Covered-of_Covers get key w (fetch_failed e) h = h

pub memory_laws : Laws memory
memory_laws = record {
  has-new_set = λ c. refl;
  has-add = has-add_node;
  has-elements = has_node-In;
  hash-new_cid_v1 = λ n c. refl;
  walk_grows = λ get root key s. walk_from_grows get key 1000 (root ∷ []) s;
  walk_root = λ get root key s ok. (walk_from_marks get key 1000 (root ∷ []) s ok).0;
  walk_covers = λ get root key s ok.
      All-map _ _ (λ c. Covered-of_Covers get key (walked get key 1000 (root ∷ []) s) (get c))
        (walk_from 1000 get (visit_by memory key) (root ∷ []) s).asked
        (walk_from-Covers get key 1000 (root ∷ []) s ok);
  walk_asks = λ get root key s k ok. walk_from_asks get key 1000 (root ∷ []) s k;
  walk_stays = λ get root key s k. walk_from_stays get key 1000 root (root ∷ []) s k (at_root, tt);
}
