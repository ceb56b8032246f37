-- ===== src/Gc/Mark/Descending.antt =====
-- What `Descendants` leaves in the set.
mod Walking
use mathlib.Core.List.{append-nil, append_assoc}
use bock_ipfs.Base.{
  Option-cases, In, append-eq-nil_left, append-eq-nil_right, first, String, ◌≡◌, refl, sym, ◌∙◌,
  subst, inl, inr, Bool, true, false, none, some, List, [], ◌∷◌, ◌++◌, append-nil, append_assoc,
  arith,
}
use bock_ipfs.Gc.Library.{Links, Walked, Library, Laws}
use bock_ipfs.Gc.Mark.{
  pinned, pin_error, Received, received, ctx_done, to_cid_v1, verbose_cid_error, descendants,
  get_links_of, reports,
}
pub use bock_ipfs.Gc.Mark.Descending.Walking.{
  pins_of, Below, top, child, IsLinks, hash-to_cid_v1, SameLinks, IsClosed, IsTraced, HasAll,
  IsTraced-append, IsFetched,
}
use bock_ipfs.Gc.Mark.Descending.Walking.{
  pins_of, Below, top, child, IsLinks, key, SameLinks, IsClosed, IsTraced, HasAll, get, walked,
  walked-IsClosed, walked-IsTraced, IsFetched, reports-IsLinks, IsTraced-append,
}

module _ (lib : Library) (laws : Laws lib) (ng : lib.Cid → Links lib.Cid) where
  open lib use {Cid, CidSet, has, validate_cid, walk, new_set}

  has_cons :
      {s : CidSet} (root c : Cid) (roots : List (Received Cid))
      → has s (key lib laws ng root) ≡ true
      → HasAll lib laws ng s (pins_of roots)
      → In c (root ∷ pins_of roots)
      → has s (key lib laws ng c) ≡ true
  has_cons {s} root c roots first rest (inl e) =
      subst (λ a. has s (key lib laws ng a) ≡ true) e first
  has_cons root c roots first rest (inr m) = rest c m

  -- What a call of `Descendants` on a stream of roots leaves.
  abbrev pub left_by : CidSet → List (Received Cid) → Walked Cid CidSet
  left_by s roots = descendants lib (get_links_of lib ng) s roots

  descendants_step :
      (s : CidSet) (root : Cid) (roots : List (Received Cid))
      → (walked lib laws ng s root).err ≡ none
      → left_by s (received (pinned root) ∷ roots)
        ≡ record (left_by (walked lib laws ng s root).set roots) {
          asked =
              (walked lib laws ng s root).asked
              ++ (left_by (walked lib laws ng s root).set roots).asked;
        }
  unfolding descendants
  descendants_step s root roots done = ground (arith, done)

  descendants_stop :
      (s : CidSet) (root : Cid) (roots : List (Received Cid)) (e : String)
      → (walked lib laws ng s root).err ≡ some e
      → left_by s (received (pinned root) ∷ roots)
        ≡ record (walked lib laws ng s root) { err = some (verbose_cid_error lib e) }
  unfolding descendants
  descendants_stop s root roots e stop = ground (arith, stop)

  pub descendants_grows :
      (s : CidSet) (roots : List (Received Cid)) (c : Cid)
      → has s c ≡ true
      → has (left_by s roots).set c ≡ true
  descendants_grows s [] c h = unfold descendants in h
  descendants_grows s (ctx_done e ∷ roots) c h = unfold descendants in h
  descendants_grows s (received (pin_error e) ∷ roots) c h = unfold descendants in h
  descendants_grows s (received (pinned root) ∷ roots) c h =
      let grown = laws.walk_grows (get lib laws ng) root (key lib laws ng) s c h in
      elim (Option-cases (walked lib laws ng s root).err) [
        | inl done ↦
            rw (descendants_step s root roots done)
              (descendants_grows (walked lib laws ng s root).set roots c grown)
        | inr (x, stop) ↦ rw (descendants_stop s root roots x stop) grown
      ]

  -- a call of `Descendants` without an error has marked every pin
  pub descendants_marks :
      (s : CidSet) (roots : List (Received Cid))
      → (left_by s roots).err ≡ none
      → HasAll lib laws ng (left_by s roots).set (pins_of roots)
  descendants_marks s [] ok = λ c m. absurd m
  descendants_marks s (ctx_done e ∷ roots) ok = unfold descendants in cc ok
  descendants_marks s (received (pin_error e) ∷ roots) ok = unfold descendants in cc ok
  descendants_marks s (received (pinned root) ∷ roots) ok =
      elim (Option-cases (walked lib laws ng s root).err) [
        | inl done ↦
            let step = descendants_step s root roots done in
            let rest = descendants_marks (walked lib laws ng s root).set roots (rw step at ok) in
            let all : HasAll lib laws ng (left_by (walked lib laws ng s root).set roots).set
                (root ∷ pins_of roots) =
              λ c m.
                has_cons root c roots
                  (descendants_grows (walked lib laws ng s root).set roots (key lib laws ng root)
                    (laws.walk_root (get lib laws ng) root (key lib laws ng) s done))
                  rest m in
            subst (λ (t : Walked Cid CidSet). HasAll lib laws ng t.set (root ∷ pins_of roots))
              (sym step) all
        | inr (x, stop) ↦ absurd (cc (rw (descendants_stop s root roots x stop) at ok))
      ]

  -- it keeps a closed set closed
  pub descendants_complete :
      (s : CidSet) (roots : List (Received Cid))
      → SameLinks lib laws ng
      → (left_by s roots).err ≡ none
      → IsClosed lib laws ng s
      → IsClosed lib laws ng (left_by s roots).set
  descendants_complete s [] same ok closed = unfold descendants in closed
  descendants_complete s (ctx_done e ∷ roots) same ok closed = unfold descendants in cc ok
  descendants_complete s (received (pin_error e) ∷ roots) same ok closed =
      unfold descendants in cc ok
  descendants_complete s (received (pinned root) ∷ roots) same ok closed =
      elim (Option-cases (walked lib laws ng s root).err) [
        | inl done ↦
            let step = descendants_step s root roots done in
            subst (λ (t : Walked Cid CidSet). IsClosed lib laws ng t.set) (sym step)
              (descendants_complete (walked lib laws ng s root).set roots same (rw step at ok)
                (walked-IsClosed lib laws ng s root same done closed))
        | inr (x, stop) ↦ absurd (cc (rw (descendants_stop s root roots x stop) at ok))
      ]

  -- every key that it adds is that of a node below a pin
  pub descendants-IsTraced :
      (s : CidSet) (roots : List (Received Cid)) (before : List Cid)
      → IsTraced lib laws ng before s
      → IsTraced lib laws ng (before ++ pins_of roots) (left_by s roots).set
  descendants-IsTraced s [] before traced =
      unfold descendants in subst (λ r. IsTraced lib laws ng r s) (sym (append-nil before)) traced
  descendants-IsTraced s (ctx_done e ∷ roots) before traced =
      unfold descendants in IsTraced-append lib laws ng before (pins_of roots) s traced
  descendants-IsTraced s (received (pin_error e) ∷ roots) before traced =
      unfold descendants in IsTraced-append lib laws ng before (pins_of roots) s traced
  descendants-IsTraced s (received (pinned root) ∷ roots) before traced =
      let once = walked-IsTraced lib laws ng s root before traced in
      elim (Option-cases (walked lib laws ng s root).err) [
        | inl done ↦
            subst
              (λ (t : Walked Cid CidSet).
                IsTraced lib laws ng (before ++ root ∷ pins_of roots) t.set)
              (sym (descendants_step s root roots done))
              (subst
                (λ r. IsTraced lib laws ng r (left_by (walked lib laws ng s root).set roots).set)
                (append_assoc before (root ∷ []) (pins_of roots))
                (descendants-IsTraced (walked lib laws ng s root).set roots (before ++ root ∷ [])
                  once))
        | inr (x, stop) ↦
            subst
              (λ (t : Walked Cid CidSet).
                IsTraced lib laws ng (before ++ root ∷ pins_of roots) t.set)
              (sym (descendants_stop s root roots x stop))
              (subst (λ r. IsTraced lib laws ng r (walked lib laws ng s root).set)
                (append_assoc before (root ∷ []) (pins_of roots))
                (IsTraced-append lib laws ng (before ++ root ∷ []) (pins_of roots)
                  (walked lib laws ng s root).set once))
      ]

  reports-append :
      (b : Bool) (xs ys : List Cid)
      → reports lib ng b (xs ++ ys) ≡ reports lib ng b xs ++ reports lib ng b ys
  unfolding reports
  reports-append b [] ys = refl
  reports-append b (x ∷ xs) ys = simp (reports-append b xs ys, append_assoc)

  walked-IsFetched :
      (s : CidSet) (root : Cid)
      → SameLinks lib laws ng
      → (walked lib laws ng s root).err ≡ none
      → reports lib ng false (walked lib laws ng s root).asked ≡ []
      → IsFetched lib laws ng s
      → IsFetched lib laws ng (walked lib laws ng s root).set
  walked-IsFetched s root same done quiet fetched c h =
      elim (laws.walk_asks (get lib laws ng) root (key lib laws ng) s (key lib laws ng c) done h) [
        | inl old ↦ fetched c old
        | inr (c', asked, e) ↦ subst IsLinks (same c' c e) (
            reports-IsLinks lib laws ng c' (walked lib laws ng s root).asked
              (walked lib laws ng s root).set asked
              (laws.walk_covers (get lib laws ng) root (key lib laws ng) s done) quiet)
      ]

  -- a strict call that reported nothing has found the links of every node that it added
  pub descendants-IsFetched :
      (s : CidSet) (roots : List (Received Cid))
      → SameLinks lib laws ng
      → (left_by s roots).err ≡ none
      → reports lib ng false (left_by s roots).asked ≡ []
      → IsFetched lib laws ng s
      → IsFetched lib laws ng (left_by s roots).set
  descendants-IsFetched s [] same ok quiet fetched = unfold descendants in fetched
  descendants-IsFetched s (ctx_done e ∷ roots) same ok quiet fetched = unfold descendants in cc ok
  descendants-IsFetched s (received (pin_error e) ∷ roots) same ok quiet fetched =
      unfold descendants in cc ok
  descendants-IsFetched s (received (pinned root) ∷ roots) same ok quiet fetched =
      elim (Option-cases (walked lib laws ng s root).err) [
        | inl done ↦
            let step = descendants_step s root roots done in
            let split : reports lib ng false (walked lib laws ng s root).asked
                  ++ reports lib ng false (left_by (walked lib laws ng s root).set roots).asked
                ≡ [] =
              sym (
                reports-append false (walked lib laws ng s root).asked
                  (left_by (walked lib laws ng s root).set roots).asked)
              ∙ (rw step at quiet) in
            subst (λ (t : Walked Cid CidSet). IsFetched lib laws ng t.set) (sym step)
              (descendants-IsFetched (walked lib laws ng s root).set roots same (rw step at ok)
                (append-eq-nil_right (reports lib ng false (walked lib laws ng s root).asked) _
                  split)
                (walked-IsFetched s root same done
                  (append-eq-nil_left (reports lib ng false (walked lib laws ng s root).asked) _
                    split)
                  fetched))
        | inr (x, stop) ↦ absurd (cc (rw (descendants_stop s root roots x stop) at ok))
      ]

  -- A closed set that has a root has all below it.
  pub closed-Below :
      (s : CidSet) (root c : Cid)
      → IsClosed lib laws ng s
      → has s (to_cid_v1 lib root) ≡ true
      → Below ng root c
      → has s (to_cid_v1 lib c) ≡ true
  closed-Below s root c closed h top = h
  closed-Below s root d closed h (child {c = c} ls below e m) =
      closed c d ls (closed-Below s root c closed h below) e m
