-- ===== src/Gc/Mark/Descending/Walking.antt =====
-- What one walk of `Descendants` leaves in the set.
use bock_ipfs.Base.{
  ◌==◌, Bool-cases, Option-cases, All, In, In-append_left, In-append_right, All-In,
  append-eq-nil_left, append-eq-nil_right, ◌≡◌, refl, ◌∙◌, subst, inl, inr, true, false, none, some,
  List, [], ◌∷◌, ◌++◌, arith,
}
use bock_ipfs.Gc.Library.{
  Links, links, not_found, link_error, Fetched, got, Walked, Reached, at_root, via, Library,
  visit_by, Covered, Laws,
}
use bock_ipfs.Gc.Mark.{
  pinned, pin_error, Received, received, ctx_done, to_cid_v1, verify_get_links, get_links_of,
  report, reports,
}

-- the keys of the pins in a stream
abbrev pub pins_of : {Cid : Type 0} → List (Received Cid) → List Cid
pins_of [] = []
pins_of (received (pinned c) ∷ roots) = c ∷ pins_of roots
pins_of (received (pin_error e) ∷ roots) = pins_of roots
pins_of (ctx_done e ∷ roots) = pins_of roots

-- A node hangs below a root in the graph that the node getter shows.
pub data Below {Cid : Type 0} (ng : Cid → Links Cid) (root : Cid) : Cid → Type 0 where
  top : Below ng root root
  child :
      {c d : Cid} (ls : List Cid) → Below ng root c → ng c ≡ links ls → In d ls → Below ng root d

-- The links of a node are at hand.
abbrev pub IsLinks : {Cid : Type 0} → Links Cid → Type 0
IsLinks (links ls) = Unit {0}
IsLinks (not_found e) = ⊥
IsLinks (link_error e) = ⊥

module _ (lib : Library) (laws : Laws lib) (ng : lib.Cid → Links lib.Cid) where
  open lib use {Cid, CidSet, has, validate_cid, walk, new_set}

  abbrev pub key : Cid → Cid
  key = to_cid_v1 lib

  -- `toCidV1` keeps the hash
  pub hash-to_cid_v1 : (c : Cid) → lib.hash (to_cid_v1 lib c) ≡ lib.hash c
  unfolding to_cid_v1
  hash-to_cid_v1 c = elim (Bool-cases (lib.version c == 0)) [
    | inl v0 ↦ rw v0 (laws.hash-new_cid_v1 (lib.codec c) c)
    | inr v1 ↦ rw v1
  ]

  -- Nodes of one key have the same links: a block is found by its hash, and read by its codec.
  abbrev pub SameLinks : Type 0
  SameLinks = (c d : Cid) → to_cid_v1 lib c ≡ to_cid_v1 lib d → ng c ≡ ng d

  -- With a node, the set has the nodes that it links to.
  abbrev pub IsClosed : CidSet → Type 0
  IsClosed s =
      (c d : Cid) (ls : List Cid)
      → has s (to_cid_v1 lib c) ≡ true
      → ng c ≡ links ls
      → In d ls
      → has s (to_cid_v1 lib d) ≡ true

  -- Every key in the set is that of a node below one of these roots.
  abbrev pub IsTraced : List Cid → CidSet → Type 0
  IsTraced roots s =
      (k : Cid)
      → has s k ≡ true
      → (root : Cid) × (c : Cid) × In root roots × Below ng root c × (to_cid_v1 lib c ≡ k)

  abbrev pub HasAll : CidSet → List Cid → Type 0
  HasAll s roots = (c : Cid) → In c roots → has s (to_cid_v1 lib c) ≡ true

  abbrev pub get : Cid → Fetched Cid
  get = verify_get_links lib (get_links_of lib ng)

  -- what a walk asks of a node with links is these links
  pub get-links :
      (c : Cid) (ls : List Cid) → ng c ≡ links ls → validate_cid c ≡ none → get c ≡ got ls
  unfolding verify_get_links get_links_of
  get-links c ls e v = ground (arith, e, v)

  pub Covered-links :
      (s : CidSet) (c d : Cid) (ls : List Cid)
      → Covered lib key s (get c)
      → ng c ≡ links ls
      → In d ls
      → has s (key d) ≡ true
  unfolding verify_get_links get_links_of
  Covered-links s c d ls cov e m = elim (Option-cases (validate_cid c)) [
    | inl valid ↦ All-In (λ a. has s (key a) ≡ true) d ls (ground (arith, cov, e, valid)) m
    | inr (x, invalid) ↦ absurd (ground (arith, cov, invalid))
  ]

  -- a node that was asked has these links, or is one whose error was hidden
  pub links-get : (c d : Cid) (ls : List Cid) → get c ≡ got ls → In d ls → ng c ≡ links ls
  unfolding verify_get_links get_links_of
  links-get c d [] e m = absurd m
  links-get c d (l ∷ ls) e m = ground (arith, e)

  pub Below-Reached : (root c : Cid) → Reached get root c → Below ng root c
  Below-Reached root c at_root = top
  Below-Reached root d (via {c = c} ls r e m) =
      child ls (Below-Reached root c r) (links-get c d ls e m) m

  -- One walk of `Descendants`.
  module _ (s : CidSet) (root : Cid) where
    abbrev pub walked : Walked Cid CidSet
    walked = walk get root (visit_by lib key) s

    pub walked-IsClosed : SameLinks → walked.err ≡ none → IsClosed s → IsClosed walked.set
    walked-IsClosed same done closed c d ls hc e m =
        elim (laws.walk_asks get root key s (key c) done hc) [
          | inl old ↦ laws.walk_grows get root key s (key d) (closed c d ls old e m)
          | inr (c', asked, eq) ↦
              Covered-links walked.set c' d ls
                (All-In (λ a. Covered lib key walked.set (get a)) c' walked.asked
                  (laws.walk_covers get root key s done) asked)
                (same c' c eq ∙ e) m
        ]

    pub walked-IsTraced :
        (roots : List Cid) → IsTraced roots s → IsTraced (roots ++ root ∷ []) walked.set
    walked-IsTraced roots traced k h = elim (laws.walk_stays get root key s k h) [
      | inl old ↦
          let (r, c, m, below, e) = traced k old in
          (r, c, In-append_left r roots (root ∷ []) m, below, e)
      | inr (c, reached, e) ↦ (
        root,
        c,
        In-append_right root roots (root ∷ []) (inl refl),
        Below-Reached root c reached,
        e,
      )
    ]

  -- The links of every node of the set are at hand.
  abbrev pub IsFetched : CidSet → Type 0
  IsFetched s = (c : Cid) → has s (to_cid_v1 lib c) ≡ true → IsLinks (ng c)

  -- a strict walk that reported nothing has got the links of the nodes that it asked
  pub reported_nothing : (c : Cid) → report lib false c (ng c) ≡ [] → IsLinks (ng c)
  unfolding report
  reported_nothing c e = ground (arith, e)

  pub reports-IsLinks :
      (c : Cid) (asked : List Cid) (s : CidSet)
      → In c asked
      → All (λ a. Covered lib key s (get a)) asked
      → reports lib ng false asked ≡ []
      → IsLinks (ng c)
  unfolding reports report verify_get_links
  reports-IsLinks c [] s m cov e = absurd m
  reports-IsLinks c (a ∷ asked) s (inr m) cov e =
      reports-IsLinks c asked s m cov.1 (append-eq-nil_right _ _ e)
  reports-IsLinks c (a ∷ asked) s (inl same) cov e =
      subst (λ b. IsLinks (ng b)) same
        (elim (Option-cases (validate_cid a)) [
          | inl valid ↦ reported_nothing a (
              rw valid at (
                append-eq-nil_left
                  (elim (validate_cid a) [ some x ↦ [] | none ↦ report lib false a (ng a) ])
                  (reports lib ng false asked) e))
          | inr (x, invalid) ↦ absurd (ground (arith, cov.0, invalid))
        ])

  pub IsTraced-append :
      (before more : List Cid) (s : CidSet) → IsTraced before s → IsTraced (before ++ more) s
  IsTraced-append before more s traced k h =
      let (r, c, m, below, e) = traced k h in (r, c, In-append_left r before more m, below, e)
