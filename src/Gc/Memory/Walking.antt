-- ===== src/Gc/Memory/Walking.antt =====
-- What the walk in memory leaves.
use bock_ipfs.Base.{
  Bool-cases, All, All-append, beq_refl, In, All-append_left, All-append_right, All-of_In, ℕ, zero,
  suc, String, ◌≡◌, refl, sym, subst, ◌⊎◌, inl, inr, Bool, true, not, none, some, List, [], ◌∷◌,
  ◌++◌, arith,
}
use bock_ipfs.Gc.Library.{Fetched, got, fetch_failed, Walked, Reached, via}
use bock_ipfs.Gc.Memory.{
  Node, node_beq, node_beq_iff, node_eq, NodeSet, has_node, asked_first, walk_from,
}

pub Fetched-cases :
    {Cid : Type 0} (f : Fetched Cid)
    → ((ls : List Cid) × (f ≡ got ls)) ⊎ ((e : String) × (f ≡ fetch_failed e))
Fetched-cases (got ls) = inl (ls, refl)
Fetched-cases (fetch_failed e) = inr (e, refl)

module _ (get : Node → Fetched Node) (key : Node → Node) where
  abbrev visit : Node → NodeSet → NodeSet × Bool
  visit c s = (key c ∷ s, not (has_node s (key c)))

  abbrev pub walked : ℕ → List Node → NodeSet → Walked Node NodeSet
  walked fuel todo s = walk_from fuel get visit todo s

  stopped : Node → NodeSet → String → Walked Node NodeSet
  stopped c s e = record { set = key c ∷ s; asked = c ∷ []; err = some e }

  -- The three ways on from the first node of the worklist.
  walk_from-cases :
      (P : Walked Node NodeSet → Type 0)
      → (fuel : ℕ) (c : Node) (todo : List Node) (s : NodeSet)
      → (has_node s (key c) ≡ true → P (walked fuel todo s))
      → ((e : String) → get c ≡ fetch_failed e → P (stopped c s e))
      → ((ls : List Node)
          → get c ≡ got ls
          → P (asked_first c (walked fuel (ls ++ todo) (key c ∷ s))))
      → P (walked (suc fuel) (c ∷ todo) s)
  unfolding walk_from stopped
  walk_from-cases P fuel c todo s old fail new = elim (Bool-cases (has_node s (key c))) [
    | inl there ↦ rw (there, walk_from) (old there)
    | inr absent ↦ elim (Fetched-cases (get c)) [
      | inl (ls, e) ↦ rw (absent, e, walk_from) (new ls e)
      | inr (x, e) ↦ rw (absent, e, walk_from) (fail x e)
    ]
  ]

  pub contains-cons : (s : NodeSet) (c d : Node) → has_node s c ≡ true → has_node (d ∷ s) c ≡ true
  contains-cons s c d h = ground (arith, h)

  pub walk_from_grows :
      (fuel : ℕ) (todo : List Node) (s : NodeSet) (c : Node)
      → has_node s c ≡ true
      → has_node (walked fuel todo s).set c ≡ true
  walk_from_grows zero todo s c h = unfold walk_from in h
  walk_from_grows (suc fuel) [] s c h = unfold walk_from in h
  walk_from_grows (suc fuel) (d ∷ todo) s c h =
      walk_from-cases (λ w. has_node w.set c ≡ true) fuel d todo s
        (λ there. walk_from_grows fuel todo s c h)
        (λ e failing. unfold stopped in contains-cons s c (key d) h)
        (λ ls e. walk_from_grows fuel (ls ++ todo) (key d ∷ s) c (contains-cons s c (key d) h))

  first_or_old :
      (c : Node) (s : NodeSet) (k : Node)
      → has_node (key c ∷ s) k ≡ true
      → (key c ≡ k) ⊎ (has_node s k ≡ true)
  first_or_old c s k h = elim (Bool-cases (node_beq (key c) k)) [
    | inl same ↦ inl ((node_beq_iff (key c) k).0 same)
    | inr other ↦ inr (ground (arith, h, other))
  ]

  Reached-All :
      (root c : Node) (ls : List Node)
      → Reached get root c
      → get c ≡ got ls
      → All (Reached get root) ls
  Reached-All root c ls r e = All-of_In ls (λ d m. via ls r e m)

  abbrev KeysIn : List Node → NodeSet → Type 0
  KeysIn cs s = All (λ c. has_node s (key c) ≡ true) cs

  -- a walk without an error has visited its whole worklist
  pub walk_from_marks :
      (fuel : ℕ) (todo : List Node) (s : NodeSet)
      → (walked fuel todo s).err ≡ none
      → KeysIn todo (walked fuel todo s).set
  walk_from_marks zero todo s = λ ok. unfold walk_from in cc ok
  walk_from_marks (suc fuel) [] s = λ ok. tt
  walk_from_marks (suc fuel) (c ∷ todo) s =
      walk_from-cases (λ w. w.err ≡ none → KeysIn (c ∷ todo) w.set) fuel c todo s
        (λ there ok. (walk_from_grows fuel todo s (key c) there, walk_from_marks fuel todo s ok))
        (λ e failing ok. unfold stopped in cc ok)
        (λ ls e ok. (
          walk_from_grows fuel (ls ++ todo) (key c ∷ s) (key c)
              (ground (arith, beq_refl ⦃e = node_eq⦄ (key c))),
          All-append_right (λ a. has_node _ (key a) ≡ true) ls todo
              (walk_from_marks fuel (ls ++ todo) (key c ∷ s) ok),
        ))

  abbrev pub Covers : Walked Node NodeSet → Fetched Node → Type 0
  Covers w (fetch_failed e) = ⊥
  Covers w (got ls) = KeysIn ls w.set

  pub walk_from-Covers :
      (fuel : ℕ) (todo : List Node) (s : NodeSet)
      → (walked fuel todo s).err ≡ none
      → All (λ c. Covers (walked fuel todo s) (get c)) (walked fuel todo s).asked
  walk_from-Covers zero todo s = λ ok. unfold walk_from in cc
  walk_from-Covers (suc fuel) [] s = λ ok. unfold walk_from in tt
  walk_from-Covers (suc fuel) (c ∷ todo) s =
      walk_from-cases (λ w. w.err ≡ none → All (λ a. Covers w (get a)) w.asked) fuel c todo s
        (λ there. walk_from-Covers fuel todo s) (λ e failing ok. unfold stopped in cc ok)
        (λ ls e ok. (
          subst (Covers (walked fuel (ls ++ todo) (key c ∷ s))) (sym e) (
              All-append_left (λ a. has_node _ (key a) ≡ true) ls todo
                (walk_from_marks fuel (ls ++ todo) (key c ∷ s) ok)),
          walk_from-Covers fuel (ls ++ todo) (key c ∷ s) ok,
        ))

  pub walk_from_asks :
      (fuel : ℕ) (todo : List Node) (s : NodeSet) (k : Node)
      → has_node (walked fuel todo s).set k ≡ true
      → (has_node s k ≡ true) ⊎ ((c : Node) × In c (walked fuel todo s).asked × (key c ≡ k))
  walk_from_asks zero todo s k = λ h. unfold walk_from in inl h
  walk_from_asks (suc fuel) [] s k = λ h. unfold walk_from in inl h
  walk_from_asks (suc fuel) (c ∷ todo) s k =
      walk_from-cases
        (λ w.
          has_node w.set k ≡ true
          → (has_node s k ≡ true) ⊎ ((a : Node) × In a w.asked × (key a ≡ k)))
        fuel c todo s (λ there h. walk_from_asks fuel todo s k h)
        (λ e failing h.
          unfold stopped in
          elim (first_or_old c s k h) [ inl same ↦ inr (c, inl refl, same) | inr old ↦ inl old ])
        (λ ls e h. elim (walk_from_asks fuel (ls ++ todo) (key c ∷ s) k h) [
          | inr (a, m, eq) ↦ inr (a, inr m, eq)
          | inl either ↦ elim (first_or_old c s k either) [
            | inl same ↦ inr (c, inl refl, same)
            | inr old ↦ inl old
          ]
        ])

  pub walk_from_stays :
      (fuel : ℕ) (root : Node) (todo : List Node) (s : NodeSet) (k : Node)
      → All (Reached get root) todo
      → has_node (walked fuel todo s).set k ≡ true
      → (has_node s k ≡ true) ⊎ ((c : Node) × Reached get root c × (key c ≡ k))
  walk_from_stays zero root todo s k r = λ h. unfold walk_from in inl h
  walk_from_stays (suc fuel) root [] s k r = λ h. unfold walk_from in inl h
  walk_from_stays (suc fuel) root (c ∷ todo) s k r =
      walk_from-cases
        (λ w.
          has_node w.set k ≡ true
          → (has_node s k ≡ true) ⊎ ((a : Node) × Reached get root a × (key a ≡ k)))
        fuel c todo s (λ there h. walk_from_stays fuel root todo s k r.1 h)
        (λ e failing h.
          unfold stopped in
          elim (first_or_old c s k h) [ inl same ↦ inr (c, r.0, same) | inr old ↦ inl old ])
        (λ ls e h.
          elim (walk_from_stays fuel root (ls ++ todo) (key c ∷ s) k
            (All-append (Reached get root) ls todo (Reached-All root c ls r.0 e) r.1) h) [
              | inr found ↦ inr found
              | inl either ↦ elim (first_or_old c s k either) [
                | inl same ↦ inr (c, r.0, same)
                | inr old ↦ inl old
              ]
            ])
