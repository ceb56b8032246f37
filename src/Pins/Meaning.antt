-- ===== src/Pins/Meaning.antt =====
-- kubo-master/core/coreapi/pin.go: what the status of a pin says of the nodes below it.
use bock_ipfs.Base.Results.{Result, ok, err, Result-cases}
use bock_ipfs.Base.{
  In, In-append_left, In-append_right, In-append, All-In, is_empty, ℕ, zero, suc, ◌<◌, String, ◌≡◌,
  refl, sym, inl, inr, true, ◌&&◌, List, [], ◌∷◌, ◌++◌, append-nil, append_assoc, arith,
}
use bock_ipfs.Pins.Verify.{BadNode, PinStatus, bad_status, good_status, add_child}
use bock_ipfs.Pins.Reference.{add_all, status_of, Descends, Reaches, here, via}

is_empty-append {ℓ} :
    {A : Type ℓ} (xs ys : List A) → is_empty (xs ++ ys) ≡ (is_empty xs && is_empty ys)
is_empty-append [] ys = refl
is_empty-append (x ∷ xs) ys = refl

is_empty-eq-nil {ℓ} : {A : Type ℓ} (xs : List A) → is_empty xs ≡ true → xs ≡ []
is_empty-eq-nil [] h = refl
is_empty-eq-nil (x ∷ xs) h = cc

module _ {Cid : Type 0} where
  -- the bad nodes of some statuses
  abbrev collected : (Cid → PinStatus Cid) → List Cid → List (BadNode Cid)
  collected f [] = []
  collected f (c ∷ cs) = (f c).bad_nodes ++ collected f cs

  -- a status is good exactly if it has no bad nodes
  abbrev pub IsFair : PinStatus Cid → Type 0
  IsFair st = st.is_ok ≡ is_empty st.bad_nodes

  add_child-IsFair : (st res : PinStatus Cid) → IsFair st → IsFair res → IsFair (add_child st res)
  unfolding add_child
  add_child-IsFair st res h k = ground (arith, is_empty-append st.bad_nodes res.bad_nodes, h, k)

  add_child-bad :
      (st res : PinStatus Cid)
      → IsFair res
      → (add_child st res).bad_nodes ≡ st.bad_nodes ++ res.bad_nodes
  unfolding add_child
  add_child-bad st res k = ground (arith, append-nil st.bad_nodes, is_empty-eq-nil res.bad_nodes)

  add_all_lem :
      (f : Cid → PinStatus Cid) (st : PinStatus Cid) (links : List Cid)
      → ((c : Cid) → In c links → IsFair (f c))
      → IsFair st
      → IsFair (add_all f st links)
        × ((add_all f st links).bad_nodes ≡ st.bad_nodes ++ collected f links)
  unfolding add_all
  add_all_lem f st [] h k = (k, sym (append-nil st.bad_nodes))
  add_all_lem f st (c ∷ cs) h k =
      let fair = h c (inl refl) in
      let rest =
        add_all_lem f (add_child st (f c)) cs (λ d m. h d (inr m))
          (add_child-IsFair st (f c) k fair) in
      (
        rest.0,
        ground (
          arith,
          rest.1,
          add_child-bad st (f c) fair,
          append_assoc st.bad_nodes (f c).bad_nodes (collected f cs),
        ),
      )

  In-collected :
      (f : Cid → PinStatus Cid) (b : BadNode Cid) (links : List Cid)
      → In b (collected f links)
      → (c : Cid) × In c links × In b (f c).bad_nodes
  In-collected f b [] m = absurd m
  In-collected f b (c ∷ cs) m = elim (In-append b (f c).bad_nodes (collected f cs) m) [
    | inl own ↦ (c, inl refl, own)
    | inr later ↦ let (d, at, own) = In-collected f b cs later in (d, inr at, own)
  ]

  collected-In :
      (f : Cid → PinStatus Cid) (b : BadNode Cid) (c : Cid) (links : List Cid)
      → In c links
      → In b (f c).bad_nodes
      → In b (collected f links)
  collected-In f b c [] m own = absurd m
  collected-In f b c (d ∷ ds) (inl same) own =
      In-append_left b (f d).bad_nodes (collected f ds) (rw same own)
  collected-In f b c (d ∷ ds) (inr m) own =
      In-append_right b (f d).bad_nodes (collected f ds) (collected-In f b c ds m own)

module _ {Cid : Type 0} (get_links : Cid → Result String (List Cid)) where
  pub status_of-IsFair : (n : ℕ) (root : Cid) → IsFair (status_of get_links n root)
  unfolding status_of
  status_of-IsFair zero root = refl
  status_of-IsFair (suc n) root = elim (Result-cases (get_links root)) [
    | inr (x, bad) ↦ ground arith
    | inl (links, fetched) ↦
        let all =
          add_all_lem (λ c. status_of get_links n c) (good_status root) links
            (λ c m. status_of-IsFair n c) refl in
        ground (arith, all.0)
  ]

  -- the bad nodes of a node whose links are fetched are those of its links
  bad_nodes_below :
      (n : ℕ) (root : Cid) (links : List Cid)
      → get_links root ≡ ok links
      → (status_of get_links (suc n) root).bad_nodes
        ≡ collected (λ c. status_of get_links n c) links
  unfolding status_of
  bad_nodes_below n root links fetched =
      let all =
        add_all_lem (λ c. status_of get_links n c) (good_status root) links
          (λ c m. status_of-IsFair n c) refl in
      ground (arith, all.1)

  bad_nodes_here :
      (n : ℕ) (root : Cid) (x : String)
      → get_links root ≡ err x
      → status_of get_links (suc n) root ≡ bad_status root x
  unfolding status_of
  bad_nodes_here n root x bad = ground arith

  pub bad_nodes_sound :
      (n : ℕ) (root : Cid) (b : BadNode Cid)
      → In b (status_of get_links n root).bad_nodes
      → Reaches get_links b.cid root × (get_links b.cid ≡ err b.error)
  unfolding status_of
  bad_nodes_sound zero root b m = absurd m
  bad_nodes_sound (suc n) root b m = elim (Result-cases (get_links root)) [
    | inr (x, bad) ↦ own root x bad (rw (bad_nodes_here n root x bad) at m)
    | inl (links, fetched) ↦
        let (c, at, below) =
          In-collected (λ d. status_of get_links n d) b links
            (rw (bad_nodes_below n root links fetched) at m) in
        let (reached, failing) = bad_nodes_sound n c b below in
        (via links fetched at reached, failing)
  ]
    where
      own :
          (root : Cid) (x : String)
          → get_links root ≡ err x
          → In b (bad_status root x).bad_nodes
          → Reaches get_links b.cid root × (get_links b.cid ≡ err b.error)
      own root x bad (inl same) = rw (← same) (here, bad)
      own root x bad (inr m) = absurd m

  pub bad_nodes_complete :
      (height : Cid → ℕ) (down : Descends get_links height) (n : ℕ) (d root : Cid) (x : String)
      → height root < n
      → Reaches get_links d root
      → get_links d ≡ err x
      → In (record { cid = d; error = x }) (status_of get_links n root).bad_nodes
  bad_nodes_complete height down zero d root x enough r bad = absurd (omega arith)
  bad_nodes_complete height down (suc n) d root x enough here bad =
      rw (bad_nodes_here n root x bad) (inl refl)
  bad_nodes_complete height down (suc n) d root x enough (via {c} links fetched at r) bad =
      let lt = All-In (λ t. height t < height root) c links (down root links fetched) at in
      let rest = bad_nodes_complete height down n d c x (omega arith) r bad in
      rw (bad_nodes_below n root links fetched) (
        collected-In (λ t. status_of get_links n t) (record { cid = d; error = x }) c links at rest)
