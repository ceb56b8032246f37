-- ===== src/Gc/Sweep/Protection.antt =====
-- What a run of the collector keeps and what it removes.
use bock_ipfs.Base.{
  if_cases, Bool-cases, Option-cases, In, ℕ, ◌≡◌, refl, sym, ap, ◌∙◌, subst, ◌⊎◌, inl, inr, Bool,
  true, false, List, [], ◌∷◌, arith,
}
use bock_ipfs.Gc.Library.{Links, not_found, Library, Laws}
use bock_ipfs.Gc.Mark.{
  Result, uncut, Cut-cases, Context, is_done, to_cid_v1, Outcome, colored, failed, Pins, unmarked,
}
use bock_ipfs.Gc.Mark.Descending.{pins_of, IsLinks, hash-to_cid_v1, SameLinks}
use bock_ipfs.Gc.Mark.Coloring.{direct_of}
use bock_ipfs.Gc.Mark.Coloring.Guarantee.{
  walked_roots, BelowAny, Supported, Guarantee, colored_set-Guarantee,
}
use bock_ipfs.Gc.Sweep.{
  Blockstore, Event, key, cancelled, KeyChan, keychan, keychan_error, Datastore, raw_of, add_raw,
  to_raw_cids, Sweeping, delete_key, visit_key, sweep, after_sweep, after_coloring, gc,
}

module _ (lib : Library) (laws : Laws lib) (bs : Blockstore lib) where
  open lib use {Cid, CidSet, has, new_set, add, hash, new_cid_v1, raw_codec, elements}
  open bs use {Store, has_block, delete_block}

  -- CIDs in the raw form that have one hash are the same
  same_raw : (k j : Cid) → raw_of lib bs k ≡ k → raw_of lib bs j ≡ j → hash k ≡ hash j → k ≡ j
  unfolding raw_of
  same_raw k j rk rj e = sym rk ∙ ap (new_cid_v1 raw_codec) e ∙ rj

  -- the sweep leaves a block that is marked, if the keys that it meets are in the raw form
  visit_key_keeps :
      (gcs : CidSet) (st : Sweeping lib bs) (k j : Cid) (sent : Bool)
      → raw_of lib bs k ≡ k
      → raw_of lib bs j ≡ j
      → has gcs j ≡ true
      → has_block (visit_key lib bs gcs st k sent).0.store j ≡ has_block st.store j
  unfolding visit_key delete_key
  visit_key_keeps gcs st k j sent rk rj h = elim (Bool-cases (has gcs k)) [
    | inl marked ↦ ground (arith, marked)
    | inr unmarked ↦
        let other =
          bs.delete_other st.store k j
            (λ e. cc (unmarked, h, ap (has gcs) (same_raw k j rk rj e))) in
        elim (Option-cases (delete_block st.store k).1) [
          | inl fine ↦ ground (arith, unmarked, fine, other)
          | inr (x, bad) ↦ ground (arith, unmarked, bad, other)
        ]
  ]

  -- The keys of `AllKeysChan` are raw CIDv1s, as the source assumes.
  abbrev pub AllRaw : List (Event Cid) → Type 0
  AllRaw [] = Unit {0}
  AllRaw (cancelled ∷ events) = AllRaw events
  AllRaw (key k sent done ∷ events) = (raw_of lib bs k ≡ k) × AllRaw events

  abbrev pub RawKeys : KeyChan Cid → Type 0
  RawKeys (keychan_error e) = Unit {0}
  RawKeys (keychan events) = AllRaw events

  sweep_keeps :
      (gcs : CidSet) (done : Bool) (st : Sweeping lib bs) (events : List (Event Cid)) (j : Cid)
      → AllRaw events
      → raw_of lib bs j ≡ j
      → has gcs j ≡ true
      → has_block (sweep lib bs gcs done st events).store j ≡ has_block st.store j
  unfolding sweep
  sweep_keeps gcs true st events j raws rj h = refl
  sweep_keeps gcs false st [] j raws rj h = refl
  sweep_keeps gcs false st (cancelled ∷ events) j raws rj h = refl
  sweep_keeps gcs false st (key k sent done ∷ events) j raws rj h =
      let once = visit_key_keeps gcs st k j sent raws.0 rj h in
      if_cases (λ (t : Sweeping lib bs). has_block t.store j ≡ has_block st.store j) _ _ _
        (sweep_keeps gcs done (visit_key lib bs gcs st k sent).0 events j raws.1 rj h ∙ once) once

  -- `toRawCids` has the raw form of each key, and nothing else.
  add_raw_has :
      (s : CidSet) (cs : List Cid) (k : Cid)
      → (has s k ≡ true) ⊎ ((c : Cid) × In c cs × (raw_of lib bs c ≡ k))
      → has (add_raw lib bs s cs) k ≡ true
  unfolding add_raw
  add_raw_has s [] k (inl h) = h
  add_raw_has s [] k (inr (c, m, e)) = absurd m
  add_raw_has s (d ∷ cs) k (inl h) =
      add_raw_has (add (raw_of lib bs d) s) cs k
        (inl ((laws.has-add k (raw_of lib bs d) s).1 (inr h)))
  add_raw_has s (d ∷ cs) k (inr (c, inl same, e)) =
      add_raw_has (add (raw_of lib bs d) s) cs k
        (inl ((laws.has-add k (raw_of lib bs d) s).1 (inl (ap (raw_of lib bs) same ∙ e))))
  add_raw_has s (d ∷ cs) k (inr (c, inr m, e)) =
      add_raw_has (add (raw_of lib bs d) s) cs k (inr (c, m, e))

  pub add_raw_only :
      (s : CidSet) (cs : List Cid) (k : Cid)
      → has (add_raw lib bs s cs) k ≡ true
      → (has s k ≡ true) ⊎ ((c : Cid) × In c cs × (raw_of lib bs c ≡ k))
  unfolding add_raw
  add_raw_only s [] k h = inl h
  add_raw_only s (d ∷ cs) k h = elim (add_raw_only (add (raw_of lib bs d) s) cs k h) [
    | inr (c, m, e) ↦ inr (c, inr m, e)
    | inl old ↦ elim ((laws.has-add k (raw_of lib bs d) s).0 old) [
      | inl e ↦ inr (d, inl refl, e)
      | inr older ↦ inl older
    ]
  ]

  -- a CID and its CIDv1 have one raw form
  pub raw_of-to_cid_v1 : (c : Cid) → raw_of lib bs (to_cid_v1 lib c) ≡ raw_of lib bs c
  unfolding raw_of
  raw_of-to_cid_v1 c = ap (new_cid_v1 raw_codec) (hash-to_cid_v1 lib laws (λ d. not_found "") c)

  to_raw_cids_has :
      (s : CidSet) (c : Cid)
      → has s (to_cid_v1 lib c) ≡ true
      → has (to_raw_cids lib bs s) (raw_of lib bs c) ≡ true
  unfolding to_raw_cids
  to_raw_cids_has s c h =
      add_raw_has new_set (elements s) (raw_of lib bs c)
        (inr (to_cid_v1 lib c, (laws.has-elements (to_cid_v1 lib c) s).0 h, raw_of-to_cid_v1 c))

  -- the raw form is in the raw form
  raw_of-raw_of : (c : Cid) → raw_of lib bs (raw_of lib bs c) ≡ raw_of lib bs c
  unfolding raw_of
  raw_of-raw_of c = ap (new_cid_v1 raw_codec) (laws.hash-new_cid_v1 raw_codec c)

  -- the blocks of the nodes in the coloured set stay, and all blocks if the context is done
  after_coloring_keeps :
      (sends : ℕ → Bool) (done : Bool) (keys : KeyChan Cid) (dstor : Datastore) (s : Store)
      → (out : List (Result Cid)) (outcome : Outcome lib) (c : Cid) → RawKeys keys
      → (done ≡ false → (gcs : CidSet) → outcome ≡ colored gcs → has gcs (to_cid_v1 lib c) ≡ true)
      → has_block (after_coloring lib bs sends done keys dstor s out outcome).0 (raw_of lib bs c)
        ≡ has_block s (raw_of lib bs c)
  unfolding after_coloring after_sweep sweep
  after_coloring_keeps sends done keys dstor s out (failed e) c raws marked = refl
  after_coloring_keeps sends done (keychan_error e) dstor s out (colored gcs) c raws marked = refl
  after_coloring_keeps sends true (keychan events) dstor s out (colored gcs) c raws marked = refl
  after_coloring_keeps sends false (keychan events) dstor s out (colored gcs) c raws marked =
      sweep_keeps (to_raw_cids lib bs gcs) false _ events (raw_of lib bs c) raws (raw_of-raw_of c)
        (to_raw_cids_has gcs c (marked refl gcs refl))

  pub is_done-uncut : (ctx : Context) → is_done ctx ≡ false → ctx.cut ≡ uncut
  is_done-uncut ctx h = elim (Cut-cases ctx.cut) [
    | inl e ↦ e
    | inr (n, noticed, e) ↦ ground (arith, h, e)
  ]

  module _ (ng : Cid → Links Cid) (same : SameLinks lib laws ng) (sends : ℕ → Bool) (ctx : Context)
      (pins : Pins lib) (roots : List Cid) (keys : KeyChan Cid) (dstor : Datastore)
      (s : Store) where
    -- What must not be removed: all below the recursive pins and the best-effort roots, the direct
    -- pins, and all below the internal pins if the links of the direct pins are below such roots.
    abbrev pub IsProtected : Cid → Type 0
    IsProtected c =
        BelowAny lib laws ng same pins roots (walked_roots lib laws ng same pins roots) c
        ⊎ In c (direct_of pins.direct)
        ⊎ (Supported lib laws ng same pins roots
            × BelowAny lib laws ng same pins roots (pins_of pins.internal) c)

    protected_marked :
        (c : Cid) (gcs : CidSet)
        → IsProtected c
        → Guarantee lib laws ng same pins roots gcs
        → has gcs (to_cid_v1 lib c) ≡ true
    protected_marked c gcs (inl b) g = g.below_walked c b
    protected_marked c gcs (inr (inl d)) g = g.direct c d
    protected_marked c gcs (inr (inr (supported, b))) g = g.below_internal supported c b

    -- However a run of the collector goes, with errors and an end of the context anywhere, also
    -- while the best-effort roots are being sent, the block of a protected node is there afterwards
    -- exactly if it was there before. The keys of the blockstore are raw CIDv1s, and the pins are
    -- those that the pinner has streamed.
    pub gc_keeps_protected :
        (c : Cid)
        → RawKeys keys
        → IsProtected c
        → has_block (gc lib bs ng sends ctx pins roots keys dstor s).0 (raw_of lib bs c)
          ≡ has_block s (raw_of lib bs c)
    unfolding gc
    gc_keeps_protected c raws p =
        after_coloring_keeps sends (is_done ctx) keys dstor s _ _ c raws (λ on gcs e.
          let (sent, prefix, all, g) =
            colored_set-Guarantee lib laws ng same pins roots sends ctx [] gcs e in
          protected_marked c gcs p
            (subst (λ r. Guarantee lib laws ng same pins r gcs) (all (is_done-uncut ctx on)) g))

    -- a run that colours nothing leaves the blockstore alone
    uncolored_same :
        (done : Bool) (out : List (Result Cid)) (outcome : Outcome lib)
        → ((gcs : CidSet) → outcome ≡ colored gcs → ⊥)
        → (after_coloring lib bs sends done keys dstor s out outcome).0 ≡ s
    unfolding after_coloring
    uncolored_same done out (failed e) never = refl
    uncolored_same done out (colored gcs) never = absurd (never gcs refl)

    -- If the links of some node below a recursive pin cannot be had, the collector removes no
    -- block at all.
    pub gc_aborts :
        (c : Cid)
        → BelowAny lib laws ng same pins roots (pins_of pins.recursive) c
        → ¬ IsLinks (ng c)
        → (gc lib bs ng sends ctx pins roots keys dstor s).0 ≡ s
    unfolding gc
    gc_aborts c b lost = uncolored_same _ _ _ λ gcs e.
        let (sent, prefix, all, g) =
          colored_set-Guarantee lib laws ng same pins roots sends ctx [] gcs e in
        lost (g.fetched c b)
