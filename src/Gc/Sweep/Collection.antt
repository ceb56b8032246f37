-- ===== src/Gc/Sweep/Collection.antt =====
-- What a complete run of the collector removes.
use bock_ipfs.Base.{
  if◌then◌else◌, if_cases, Bool-cases, Option-cases, In, ℕ, ◌≡◌, sym, ap, ◌∙◌, subst, inl, inr,
  Bool, true, false, none, List, [], ◌∷◌, arith,
}
use bock_ipfs.Gc.Library.{Links, Library, Laws}
use bock_ipfs.Gc.Mark.{Context, is_done, colored, Pins, unmarked, colored_set}
use bock_ipfs.Gc.Mark.Descending.{SameLinks}
use bock_ipfs.Gc.Mark.Coloring.Guarantee.{all_roots, BelowAny, Guarantee, colored_set-Guarantee}
use bock_ipfs.Gc.Sweep.{
  Blockstore, Event, key, cancelled, keychan, Datastore, raw_of, to_raw_cids, Sweeping, delete_key,
  visit_key, sweep, after_sweep, after_coloring, gc,
}
use bock_ipfs.Gc.Sweep.Protection.{add_raw_only, raw_of-to_cid_v1, is_done-uncut}

-- The keys that the loop receives, up to the end of the context.
abbrev pub keys_of : {Cid : Type 0} → List (Event Cid) → List Cid
keys_of [] = []
keys_of (cancelled ∷ events) = keys_of events
keys_of (key k sent done ∷ events) = k ∷ keys_of events

-- The context does not end during the loop.
abbrev pub IsUndisturbed : {Cid : Type 0} → List (Event Cid) → Type 0
IsUndisturbed [] = Unit {0}
IsUndisturbed (cancelled ∷ events) = ⊥
IsUndisturbed (key k sent done ∷ events) = (sent ≡ true) × (done ≡ false) × IsUndisturbed events

module _ (lib : Library) (laws : Laws lib) (bs : Blockstore lib) where
  open lib use {Cid, CidSet, has, elements, new_set}
  open bs use {Store, has_block, delete_block}

  -- no deletion fails
  abbrev pub DeletesAll : Type 0
  DeletesAll = (s : Store) (k : Cid) → (delete_block s k).1 ≡ none

  -- the store after one round, and whether the loop goes on
  visit_key_lem :
      (gcs : CidSet) (st : Sweeping lib bs) (k : Cid) (sent : Bool)
      → ((visit_key lib bs gcs st k sent).0.store
          ≡ (if has gcs k then st.store else (delete_block st.store k).0))
        × ((visit_key lib bs gcs st k sent).1 ≡ (if has gcs k then true else sent))
  unfolding visit_key delete_key
  visit_key_lem gcs st k sent = elim (Option-cases (delete_block st.store k).1) [
    | inl fine ↦ ground (arith, fine)
    | inr (x, bad) ↦ ground (arith, bad)
  ]

  visit_key_gone :
      (gcs : CidSet) (st : Sweeping lib bs) (k j : Cid) (sent : Bool)
      → has_block st.store j ≡ false
      → has_block (visit_key lib bs gcs st k sent).0.store j ≡ false
  visit_key_gone gcs st k j sent h =
      rw ((visit_key_lem gcs st k sent).0)
        (if_cases (λ t. has_block t j ≡ false) (has gcs k) _ _ h (bs.delete_only st.store k j h))

  sweep_gone :
      (gcs : CidSet) (done : Bool) (st : Sweeping lib bs) (events : List (Event Cid)) (j : Cid)
      → has_block st.store j ≡ false
      → has_block (sweep lib bs gcs done st events).store j ≡ false
  unfolding sweep
  sweep_gone gcs true st events j h = h
  sweep_gone gcs false st [] j h = h
  sweep_gone gcs false st (cancelled ∷ events) j h = h
  sweep_gone gcs false st (key k sent done ∷ events) j h =
      let once = visit_key_gone gcs st k j sent h in
      if_cases (λ (t : Sweeping lib bs). has_block t.store j ≡ false) _ _ _
        (sweep_gone gcs done (visit_key lib bs gcs st k sent).0 events j once) once

  -- a key that is received and not marked is gone in the end
  sweep_removes :
      (gcs : CidSet) (st : Sweeping lib bs) (events : List (Event Cid)) (j : Cid)
      → DeletesAll
      → IsUndisturbed events
      → In j (keys_of events)
      → has gcs j ≡ false
      → has_block (sweep lib bs gcs false st events).store j ≡ false
  unfolding sweep
  sweep_removes gcs st [] j all calm m h = absurd m
  sweep_removes gcs st (cancelled ∷ events) j all calm m h = absurd calm
  sweep_removes gcs st (key k sent done ∷ events) j all calm m h =
      let on : (visit_key lib bs gcs st k sent).1 ≡ true =
        (visit_key_lem gcs st k sent).1 ∙ ground (arith, calm.0) in
      rw (on, calm.1)
        (elim m [
          | inl e ↦ sweep_gone gcs false (visit_key lib bs gcs st k sent).0 events j (
              rw ((visit_key_lem gcs st k sent).0) (
                rw (ap (has gcs) e ∙ h) (
                  subst (λ a. has_block (delete_block st.store k).0 a ≡ false) e
                    (bs.delete_gone st.store k (all st.store k)))))
          | inr later ↦
              sweep_removes gcs (visit_key lib bs gcs st k sent).0 events j all calm.2 later h
        ])

  -- what the raw set has are raw forms of what the set has
  to_raw_cids_only :
      (s : CidSet) (k : Cid)
      → has (to_raw_cids lib bs s) k ≡ true
      → (c : Cid) × (has s c ≡ true) × (raw_of lib bs c ≡ k)
  unfolding to_raw_cids
  to_raw_cids_only s k h = elim (add_raw_only lib laws bs new_set (elements s) k h) [
    | inl none_there ↦ absurd (cc (none_there, laws.has-new_set k))
    | inr (c, m, e) ↦ (c, (laws.has-elements c s).1 m, e)
  ]

  module _ (ng : Cid → Links Cid) (same : SameLinks lib laws ng) (sends : ℕ → Bool) (ctx : Context)
      (pins : Pins lib) (roots : List Cid) (events : List (Event Cid)) (dstor : Datastore)
      (s : Store) (gcs : CidSet) where
    swept : Sweeping lib bs
    swept =
        sweep lib bs (to_raw_cids lib bs gcs) (is_done ctx)
          (record {
            store = s;
            errors = false;
            removed = 0;
            output = (colored_set lib ng sends ctx pins roots []).0;
          })
          events

    gc-swept :
        (colored_set lib ng sends ctx pins roots []).1 ≡ colored gcs
        → (gc lib bs ng sends ctx pins roots (keychan events) dstor s).0 ≡ swept.store
    unfolding gc after_coloring after_sweep swept
    gc-swept done = rw (done, after_coloring)

    swept-unmarked :
        DeletesAll
        → is_done ctx ≡ false
        → IsUndisturbed events
        → ((k : Cid) → has_block s k ≡ true → In k (keys_of events))
        → (k : Cid) → has (to_raw_cids lib bs gcs) k ≡ false
        → has_block swept.store k ≡ false
    unfolding swept
    swept-unmarked all on calm cover k h = elim (Bool-cases (has_block s k)) [
      | inl there ↦ rw on (sweep_removes _ _ events k all calm (cover k there) h)
      | inr absent ↦ sweep_gone _ _ _ events k absent
    ]

    -- If the colouring succeeds, the context does not end, no deletion fails and the keys that come
    -- cover the blockstore, then every block that is left is that of a node below a pin or a root.
    pub gc_collects :
        (colored_set lib ng sends ctx pins roots []).1 ≡ colored gcs
        → DeletesAll
        → is_done ctx ≡ false
        → IsUndisturbed events
        → ((k : Cid) → has_block s k ≡ true → In k (keys_of events))
        → (k : Cid)
        → has_block (gc lib bs ng sends ctx pins roots (keychan events) dstor s).0 k ≡ true
        → (c : Cid) × BelowAny lib laws ng same pins roots (all_roots lib laws ng same pins roots) c
          × (raw_of lib bs c ≡ k)
    gc_collects done all on calm cover k left = elim (Bool-cases (has (to_raw_cids lib bs gcs) k)) [
      | inl marked ↦
          let (c', h, e) = to_raw_cids_only gcs k marked in
          let (sent, prefix, every, g) =
            colored_set-Guarantee lib laws ng same pins roots sends ctx [] gcs done in
          let (root, c, m, below, eq) =
            (subst (λ r. Guarantee lib laws ng same pins r gcs)
                (every (is_done-uncut lib laws bs ctx on)) g).traced
              c' h in
          (c, (root, m, below), sym (raw_of-to_cid_v1 lib laws bs c) ∙ ap (raw_of lib bs) eq ∙ e)
      | inr unmarked ↦ absurd (
          cc (
            swept-unmarked all on calm cover k unmarked,
            sym (ap (λ t. has_block t k) (gc-swept done)),
            left,
          ))
    ]
