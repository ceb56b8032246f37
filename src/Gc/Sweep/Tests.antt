-- ===== src/Gc/Sweep/Tests.antt =====
-- Runs of the collector on a small graph in memory, and instances of its theorems.
use bock_ipfs.Base.{
  ◌==◌, if◌then◌else◌, ℕ, ◌≡◌, refl, sym, ap, ◌∙◌, ◌≢◌, inl, inr, Bool, true, false, not, ◌&&◌,
  none, List, [], ◌∷◌, ◌++◌, arith,
}
use bock_ipfs.Gc.Library.{Links, links, not_found}
use bock_ipfs.Gc.Memory.{Node, node_beq, node_beq_iff, NodeSet, has_node, walk_from, memory}
use bock_ipfs.Gc.Memory.Lawful.{memory_laws}
use bock_ipfs.Gc.Mark.{
  cannot_fetch_all_links, cannot_fetch_links, key_removed, error, StreamedPin, pinned, Received,
  received, uncut, cut_after, Context, verify_get_links, colored, Pins, colored_set,
}
use bock_ipfs.Gc.Mark.Descending.{Below, top, child, hash-to_cid_v1, SameLinks}
use bock_ipfs.Gc.Sweep.Protection.{AllRaw, gc_keeps_protected, gc_aborts}
use bock_ipfs.Gc.Sweep.Collection.{gc_collects}
use bock_ipfs.Gc.Mark.Coloring.Guarantee.{all_roots, BelowAny, Guarantee, colored_set-Guarantee}
use bock_ipfs.Gc.Sweep.{Blockstore, Event, key, keychan, plain, raw_of, gc}

pub remove : Node → NodeSet → NodeSet
remove k [] = []
remove k (c ∷ s) = let rest = remove k s in if node_beq c k then rest else c ∷ rest

has_node-remove :
    (s : NodeSet) (k j : Node) → has_node (remove k s) j ≡ has_node s j && not (node_beq k j)
unfolding remove
has_node-remove [] k j = refl
has_node-remove (c ∷ s) k j =
    ground (arith, has_node-remove s k j, node_beq_iff c k, node_beq_iff c j, node_beq_iff k j)

pub remove_other :
    (s : NodeSet) (k j : Node) → k.hash ≢ j.hash → has_node (remove k s) j ≡ has_node s j
remove_other s k j ne =
    let differ : k ≢ j = λ e. ne (ap (λ (n : Node). n.hash) e) in
    ground (arith, has_node-remove s k j, node_beq_iff k j, differ)

pub remove_gone : (s : NodeSet) (k : Node) → has_node (remove k s) k ≡ false
remove_gone s k = ground (arith, has_node-remove s k k, node_beq_iff k k)

pub remove_only :
    (s : NodeSet) (k j : Node) → has_node s j ≡ false → has_node (remove k s) j ≡ false
remove_only s k j h = ground (arith, has_node-remove s k j, h)

-- a blockstore in memory, on which no deletion fails
abbrev pub blocks : Blockstore memory
blocks = record {
  Store = NodeSet;
  has_block = has_node;
  delete_block = λ s k. (remove k s, none);
  delete_other = remove_other;
  delete_gone = λ s k ok. remove_gone s k;
  delete_only = remove_only;
}

abbrev pub v0 : ℕ → Node
v0 n = record { version = 0; codec = 0x70; hash = n }

abbrev pub raw : ℕ → Node
raw n = record { version = 1; codec = 0x55; hash = n }

abbrev v1 : ℕ → Node
v1 n = record { version = 1; codec = 0x70; hash = n }

-- the links by the hash: 1 to 2 and 3, 3 to 4, 8 is not there
abbrev pub table : ℕ → Links Node
table n =
    if n == 1
    then links (v0 2 ∷ v0 3 ∷ [])
    else if n == 3
    then links (v0 4 ∷ [])
    else if n == 8
    then not_found "8"
    else links []

abbrev pub graph : Node → Links Node
graph c = table c.hash

pub graph_same : SameLinks memory memory_laws graph
graph_same c d e = ap table (
    sym (hash-to_cid_v1 memory memory_laws graph c)
    ∙ ap (λ (n : Node). n.hash) e
    ∙ hash-to_cid_v1 memory memory_laws graph d)

abbrev pub pins_at :
    List (Received Node) → List (StreamedPin Node) → List (Received Node) → Pins memory
pins_at r d i = record { recursive = r; direct = d; internal = i }

abbrev pub one_pin : Pins memory
one_pin = pins_at (received (pinned (v0 1)) ∷ []) [] []

abbrev pub all_sent : ℕ → Bool
all_sent n = true

abbrev pub calm : Context
calm = record { err = "canceled"; cut = uncut; ended = false }

-- the context ends when no best-effort root has been sent, and the channel is closed
abbrev cut_short : Context
cut_short = record { err = "canceled"; cut = cut_after 0 false; ended = false }

abbrev pub store : NodeSet
store = raw 1 ∷ raw 2 ∷ raw 3 ∷ raw 4 ∷ raw 5 ∷ raw 6 ∷ []

abbrev pub events : List (Event Node)
events =
    key (raw 1) true false
    ∷ key (raw 5) true false
    ∷ key (raw 4) true false
    ∷ key (raw 6) true false
    ∷ key (raw 2) true false
    ∷ key (raw 3) true false
    ∷ []

-- 6 is a best-effort root, so 5 alone is removed
gc_run :
    gc memory blocks graph all_sent calm one_pin (v0 6 ∷ []) (keychan events) plain store
    ≡ (raw 1 ∷ raw 2 ∷ raw 3 ∷ raw 4 ∷ raw 6 ∷ [], key_removed (raw 5) ∷ [])
unfolding gc colored_set walk_from remove verify_get_links
gc_run = refl

-- The best-effort root 6 is not marked, but the loop finds that the context is done.
cut_run :
    ((colored_set memory graph all_sent cut_short one_pin (v0 6 ∷ []) []).1
      ≡ colored (v1 4 ∷ v1 3 ∷ v1 2 ∷ v1 1 ∷ []))
    × ((gc memory blocks graph all_sent cut_short one_pin
          (v0 6 ∷ [])
          (keychan events)
          plain
          store).0
        ≡ store)
unfolding gc colored_set walk_from remove verify_get_links
cut_run = (refl, refl)

-- A directly pinned node is not walked: as the direct pins are added before the walk from the
-- internal pins, that walk does not go below a node that is pinned directly too, and 2 is lost.
internal_pin_lost :
    (gc memory blocks graph all_sent calm
      (pins_at [] (pinned (v0 1) ∷ []) (received (pinned (v0 1)) ∷ []))
      []
      (keychan (key (raw 1) true false ∷ key (raw 2) true false ∷ []))
      plain
      (raw 1 ∷ raw 2 ∷ [])).0
    ≡ raw 1 ∷ []
unfolding gc colored_set walk_from remove verify_get_links
internal_pin_lost = refl

gc_aborts_run :
    gc memory blocks graph all_sent calm
      (pins_at (received (pinned (v0 8)) ∷ []) [] [])
      []
      (keychan events)
      plain
      store
    ≡ (store, error (cannot_fetch_links (v0 8) "8") ∷ error cannot_fetch_all_links ∷ [])
unfolding gc colored_set walk_from remove verify_get_links
gc_aborts_run = refl

pub Below-3 : Below graph (v0 1) (v0 3)
Below-3 = child (v0 2 ∷ v0 3 ∷ []) top refl (inr (inl refl))

pub events-AllRaw : AllRaw memory memory_laws blocks events
unfolding raw_of
events-AllRaw = (refl, (refl, (refl, (refl, (refl, (refl, tt))))))

gc_keeps_protected_example :
    has_node
      (gc memory blocks graph all_sent calm one_pin [] (keychan events) plain store).0
      (raw 3)
    ≡ true
unfolding raw_of
gc_keeps_protected_example =
    gc_keeps_protected memory memory_laws blocks graph graph_same all_sent calm one_pin []
      (keychan events) plain store (v0 3) events-AllRaw (inl (v0 1, inl refl, Below-3))

gc_aborts_example :
    (gc memory blocks graph all_sent calm
      (pins_at (received (pinned (v0 8)) ∷ []) [] [])
      []
      (keychan events)
      plain
      store).0
    ≡ store
gc_aborts_example =
    gc_aborts memory memory_laws blocks graph graph_same all_sent calm
      (pins_at (received (pinned (v0 8)) ∷ []) [] []) [] (keychan events) plain store (v0 8)
      (v0 8, inl refl, top) (λ h. h)

colored_run :
    (colored_set memory graph all_sent calm one_pin [] []).1
    ≡ colored (v1 4 ∷ v1 3 ∷ v1 2 ∷ v1 1 ∷ [])
unfolding colored_set walk_from verify_get_links
colored_run = refl

colored_set-Guarantee_example :
    (sent : List Node) × ((rest : List Node) × (sent ++ rest ≡ []))
    × (calm.cut ≡ uncut → sent ≡ [])
    × Guarantee memory memory_laws graph graph_same one_pin sent (v1 4 ∷ v1 3 ∷ v1 2 ∷ v1 1 ∷ [])
colored_set-Guarantee_example =
    colored_set-Guarantee memory memory_laws graph graph_same one_pin [] all_sent calm []
      (v1 4 ∷ v1 3 ∷ v1 2 ∷ v1 1 ∷ []) colored_run

abbrev in_order : List (Event Node)
in_order = key (raw 1) true false ∷ key (raw 5) true false ∷ key (raw 3) true false ∷ []

abbrev small_store : NodeSet
small_store = raw 1 ∷ raw 5 ∷ raw 3 ∷ []

gc_small_run :
    (gc memory blocks graph all_sent calm one_pin [] (keychan in_order) plain small_store).0
    ≡ raw 1 ∷ raw 3 ∷ []
unfolding gc colored_set walk_from remove verify_get_links
gc_small_run = refl

gc_collects_example :
    (c : Node) × BelowAny memory memory_laws graph graph_same one_pin []
      (all_roots memory memory_laws graph graph_same one_pin [])
      c
    × (raw_of memory blocks c ≡ raw 3)
gc_collects_example =
    gc_collects memory memory_laws blocks graph graph_same all_sent calm one_pin [] in_order plain
      small_store (v1 4 ∷ v1 3 ∷ v1 2 ∷ v1 1 ∷ []) colored_run (λ s k. refl) refl
      (refl, refl, (refl, refl, (refl, refl, tt))) (λ k. (memory_laws.has-elements k small_store).0)
      (raw 3) (ap (λ s. has_node s (raw 3)) gc_small_run)
