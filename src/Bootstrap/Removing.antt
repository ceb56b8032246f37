-- ===== src/Bootstrap/Removing.antt =====
-- What `bootstrapRemove` removes and what it keeps.
use bock_ipfs.Base.{
  Bool-cases, Option-cases, string_eq, contains, In, is_empty, String, ◌≡◌, sym, ap, ◌∙◌, subst,
  ◌↔◌, ◌⊎◌, inl, inr, Bool, true, false, ◌||◌, Option, none, some, List, [], ◌∷◌, ◌++◌,
}
use bock_ipfs.Base.Dict.{Dict, lookup}
use bock_ipfs.Bootstrap.{Addresses, AddrInfo, kept_of, removed_of, if_any, sort_peers}

module _ (lib : Addresses) where
  open lib use {Multiaddr, addr_eq}

  -- the list has the peer with this address
  pub HasAddress : String → Multiaddr → List (AddrInfo Multiaddr) → Type 0
  HasAddress id a [] = ⊥
  HasAddress id a (p ∷ ps) = ((p.id ≡ id) × In a p.addrs) ⊎ HasAddress id a ps

  -- The map says to remove this address of this peer: it names the peer with no addresses, or with
  -- this one.
  pub is_matched : Dict String (List Multiaddr) → String → Multiaddr → Bool
  is_matched m id a = elim (lookup id m) [
    | none ↦ false
    | some addrs ↦ is_empty addrs || contains ⦃e = addr_eq⦄ addrs a
  ]

  In-kept_of :
      (addrs l : List Multiaddr) (a : Multiaddr)
      → In a (kept_of lib addrs l) ↔ (In a l × (contains ⦃e = addr_eq⦄ addrs a ≡ false))
  unfolding kept_of
  In-kept_of addrs [] a = ((λ h. absurd h), (λ h. absurd h.0))
  In-kept_of addrs (b ∷ l) a = elim (Bool-cases (contains ⦃e = addr_eq⦄ addrs b)) [
    | inl matched ↦ (
      (λ h. let (i, d) = (In-kept_of addrs l a).0 (rw matched at h) in (inr i, d)),
      (λ h. rw matched (elim h.0 [
        | inl same ↦ absurd (cc (matched, h.1, ap (λ x. contains ⦃e = addr_eq⦄ addrs x) same))
        | inr i ↦ (In-kept_of addrs l a).1 (i, h.1)
      ])),
    )
    | inr differs ↦ (
      (λ h. elim (rw differs at h) [
        | inl same ↦ (inl same, subst (λ x. contains ⦃e = addr_eq⦄ addrs x ≡ false) same differs)
        | inr r ↦ let (i, d) = (In-kept_of addrs l a).0 r in (inr i, d)
      ]),
      (λ h.
          rw differs
            (elim h.0 [ inl same ↦ inl same | inr i ↦ inr ((In-kept_of addrs l a).1 (i, h.1)) ])),
    )
  ]

  In-removed_of :
      (addrs l : List Multiaddr) (a : Multiaddr)
      → In a (removed_of lib addrs l) ↔ (In a l × (contains ⦃e = addr_eq⦄ addrs a ≡ true))
  unfolding removed_of
  In-removed_of addrs [] a = ((λ h. absurd h), (λ h. absurd h.0))
  In-removed_of addrs (b ∷ l) a = elim (Bool-cases (contains ⦃e = addr_eq⦄ addrs b)) [
    | inr matched ↦ (
      (λ h. let (i, d) = (In-removed_of addrs l a).0 (rw matched at h) in (inr i, d)),
      (λ h. rw matched (elim h.0 [
        | inl same ↦ absurd (cc (matched, h.1, ap (λ x. contains ⦃e = addr_eq⦄ addrs x) same))
        | inr i ↦ (In-removed_of addrs l a).1 (i, h.1)
      ])),
    )
    | inl differs ↦ (
      (λ h. elim (rw differs at h) [
        | inl same ↦ (inl same, subst (λ x. contains ⦃e = addr_eq⦄ addrs x ≡ true) same differs)
        | inr r ↦ let (i, d) = (In-removed_of addrs l a).0 r in (inr i, d)
      ]),
      (λ h.
          rw differs (elim h.0 [
            | inl same ↦ inl same
            | inr i ↦ inr ((In-removed_of addrs l a).1 (i, h.1))
          ])),
    )
  ]

  HasAddress-if_any :
      (q id : String) (a : Multiaddr) (l : List Multiaddr) (r : List (AddrInfo Multiaddr))
      → HasAddress id a (if_any lib q l ++ r) ↔ (((q ≡ id) × In a l) ⊎ HasAddress id a r)
  unfolding if_any HasAddress
  HasAddress-if_any q id a [] r = ((λ h. inr h), (λ h. elim h [ inl e ↦ absurd e.1 | inr k ↦ k ]))
  HasAddress-if_any q id a (b ∷ l) r = ((λ h. h), (λ h. h))

  matched_of :
      (m : Dict String (List Multiaddr)) (q id : String) (a : Multiaddr)
      (o : Option (List Multiaddr))
      → lookup q m ≡ o
      → q ≡ id
      → is_matched m id a
        ≡ elim o [ none ↦ false | some addrs ↦ is_empty addrs || contains ⦃e = addr_eq⦄ addrs a ]
  unfolding is_matched
  matched_of m q id a o e same =
      ap
        (λ (x : Option (List Multiaddr)). elim x [
          | none ↦ false
          | some addrs ↦ is_empty addrs || contains ⦃e = addr_eq⦄ addrs a
        ])
        (ap (λ k. lookup k m) (sym same) ∙ e)

  sorted_by :
      (m : Dict String (List Multiaddr)) (p : AddrInfo Multiaddr)
      (peers : List (AddrInfo Multiaddr))
      → (id : String) (a : Multiaddr) (addrs : List Multiaddr) → lookup p.id m ≡ some addrs
      → (HasAddress id a (sort_peers lib m peers).1
          ↔ (HasAddress id a peers × (is_matched m id a ≡ false)))
      → (HasAddress id a (sort_peers lib m peers).0
          ↔ (HasAddress id a peers × (is_matched m id a ≡ true)))
      → (HasAddress id a (sort_peers lib m (p ∷ peers)).1
          ↔ (HasAddress id a (p ∷ peers) × (is_matched m id a ≡ false)))
        × (HasAddress id a (sort_peers lib m (p ∷ peers)).0
            ↔ (HasAddress id a (p ∷ peers) × (is_matched m id a ≡ true)))
  unfolding sort_peers HasAddress
  sorted_by m p peers id a [] e kept gone =
      rw (e, HasAddress, sort_peers)
        (
          (
            (λ h. let (i, d) = kept.0 h in (inr i, d)),
            (λ h. elim h.0 [
              | inl here ↦ absurd (cc (matched_of m p.id id a (some []) e here.0, h.1))
              | inr later ↦ kept.1 (later, h.1)
            ]),
          ),
          (
            (λ h. elim h [
              | inl here ↦ (inl here, matched_of m p.id id a (some []) e here.0)
              | inr later ↦ let (i, d) = gone.0 later in (inr i, d)
            ]),
            (λ h. elim h.0 [ inl here ↦ inl here | inr later ↦ inr (gone.1 (later, h.1)) ]),
          ),
        )
  sorted_by m p peers id a (b ∷ addrs) e kept gone =
      let some_kept =
        HasAddress-if_any p.id id a (kept_of lib (b ∷ addrs) p.addrs) (sort_peers lib m peers).1 in
      let some_gone =
        HasAddress-if_any p.id id a (removed_of lib (b ∷ addrs) p.addrs)
          (sort_peers lib m peers).0 in
      rw (e, HasAddress, sort_peers)
        (
          (
            (λ h. elim (some_kept.0 h) [
              | inl (same, i) ↦
                  let (j, d) = (In-kept_of (b ∷ addrs) p.addrs a).0 i in
                  (inl (same, j), matched_of m p.id id a (some (b ∷ addrs)) e same ∙ d)
              | inr later ↦ let (i, d) = kept.0 later in (inr i, d)
            ]),
            (λ h. some_kept.1 (elim h.0 [
              | inl (same, i) ↦ inl (
                same,
                (In-kept_of (b ∷ addrs) p.addrs a).1
                    (i, sym (matched_of m p.id id a (some (b ∷ addrs)) e same) ∙ h.1),
              )
              | inr later ↦ inr (kept.1 (later, h.1))
            ])),
          ),
          (
            (λ h. elim (some_gone.0 h) [
              | inl (same, i) ↦
                  let (j, d) = (In-removed_of (b ∷ addrs) p.addrs a).0 i in
                  (inl (same, j), matched_of m p.id id a (some (b ∷ addrs)) e same ∙ d)
              | inr later ↦ let (i, d) = gone.0 later in (inr i, d)
            ]),
            (λ h. some_gone.1 (elim h.0 [
              | inl (same, i) ↦ inl (
                same,
                (In-removed_of (b ∷ addrs) p.addrs a).1
                    (i, sym (matched_of m p.id id a (some (b ∷ addrs)) e same) ∙ h.1),
              )
              | inr later ↦ inr (gone.1 (later, h.1))
            ])),
          ),
        )

  -- The loop of `bootstrapRemove` divides the addresses: an address of a peer is kept exactly if the
  -- peer had it and it is not to be removed, and it is removed exactly if the peer had it and it is.
  pub sort_peers_lem :
      (m : Dict String (List Multiaddr)) (peers : List (AddrInfo Multiaddr)) (id : String)
      (a : Multiaddr)
      → (HasAddress id a (sort_peers lib m peers).1
          ↔ (HasAddress id a peers × (is_matched m id a ≡ false)))
        × (HasAddress id a (sort_peers lib m peers).0
            ↔ (HasAddress id a peers × (is_matched m id a ≡ true)))
  unfolding sort_peers HasAddress
  sort_peers_lem m [] id a =
      (((λ h. absurd h), (λ h. absurd h.0)), ((λ h. absurd h), (λ h. absurd h.0)))
  sort_peers_lem m (p ∷ peers) id a =
      let (kept, gone) = sort_peers_lem m peers id a in
      elim (Option-cases (lookup p.id m)) [
        | inl e ↦
            rw (e, HasAddress, sort_peers)
              (
                (
                  (λ h. elim h [
                    | inl here ↦ (inl here, matched_of m p.id id a none e here.0)
                    | inr later ↦ let (i, d) = kept.0 later in (inr i, d)
                  ]),
                  (λ h. elim h.0 [ inl here ↦ inl here | inr later ↦ inr (kept.1 (later, h.1)) ]),
                ),
                (
                  (λ h. let (i, d) = gone.0 h in (inr i, d)),
                  (λ h. elim h.0 [
                    | inl here ↦ absurd (cc (matched_of m p.id id a none e here.0, h.1))
                    | inr later ↦ gone.1 (later, h.1)
                  ]),
                ),
              )
        | inr (addrs, e) ↦ sorted_by m p peers id a addrs e kept gone
      ]
