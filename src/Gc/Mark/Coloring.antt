-- ===== src/Gc/Mark/Coloring.antt =====
-- What `ColoredSet` returns: everything below the pins, and nothing else, or an error.
pub mod Guarantee
use bock_ipfs.Base.{
  if_cases, length, In, In-append, ℕ, String, ◌≡◌, refl, ap, ◌⊎◌, inl, inr, Bool, true, false,
  Option, none, some, List, [], ◌∷◌, ◌++◌, arith,
}
use bock_ipfs.Gc.Library.{Links, Library, Laws}
use bock_ipfs.Gc.Mark.{
  GcError, lib_error, Result, StreamedPin, pinned, pin_error, Received, to_cid_v1, Marking, Outcome,
  failed, mark, after_mark, add_direct,
}
use bock_ipfs.Gc.Mark.Descending.{
  pins_of, SameLinks, IsClosed, IsTraced, HasAll, descendants_grows, descendants_marks,
  descendants_complete, descendants-IsTraced,
}

-- the keys of the direct pins
abbrev pub direct_of : {Cid : Type 0} → List (StreamedPin Cid) → List Cid
direct_of [] = []
direct_of (pinned c ∷ keys) = c ∷ direct_of keys
direct_of (pin_error e ∷ keys) = direct_of keys

module _ (lib : Library) (laws : Laws lib) (ng : lib.Cid → Links lib.Cid)
    (same : SameLinks lib laws ng) where
  open lib use {Cid, CidSet, has, new_set, add}

  -- What the marking guarantees: as long as there was no error it has these roots and all that
  -- must be kept, and is closed where `Closing` holds. In any case it has only what hangs below
  -- some of these roots. `Known` is what an earlier step has shown.
  record IsSound (Closing Known : Type 0) (Kept : Cid → Type 0) (roots : List Cid) (m : Marking lib)
      : Type 0 where
    closed : Closing → m.errors ≡ false → IsClosed lib laws ng m.gcs
    marked : m.errors ≡ false → HasAll lib laws ng m.gcs roots
    kept : m.errors ≡ false → (c : Cid) → Kept c → has m.gcs (to_cid_v1 lib c) ≡ true
    known : m.errors ≡ false → Known
    traced : IsTraced lib laws ng roots m.gcs

  module _ (Closing Known : Type 0) (Kept : Cid → Type 0) (b : Bool) (m : Marking lib)
      (before : List Cid) (roots : List (Received Cid)) where
    abbrev marking : Marking lib × Option String
    marking = mark lib ng b m roots

    mark-IsSound :
        IsSound Closing Known Kept before m
        → marking.1 ≡ none
        → IsSound Closing Known Kept (before ++ pins_of roots) marking.0
    unfolding mark
    mark-IsSound sound ok =
        let calm : (marking.0.errors ≡ false) → m.errors ≡ false = λ e. ground (arith, e) in
        record {
          closed =
              λ h e. descendants_complete lib laws ng m.gcs roots same ok (sound.closed h (calm e));
          marked = λ e c h. elim (In-append c before (pins_of roots) h) [
            | inl old ↦ descendants_grows lib laws ng m.gcs roots _ (sound.marked (calm e) c old)
            | inr new ↦ descendants_marks lib laws ng m.gcs roots ok c new
          ];
          kept = λ e c k. descendants_grows lib laws ng m.gcs roots _ (sound.kept (calm e) c k);
          known = λ e. sound.known (calm e);
          traced = descendants-IsTraced lib laws ng m.gcs roots before sound.traced;
        }

    -- after an error of `Descendants` the marking is only traced
    mark_failed-IsSound :
        (out : List (Result Cid))
        → IsSound Closing Known Kept before m
        → IsSound Closing Known Kept
            (before ++ pins_of roots)
            (record marking.0 { errors = true; output = out })
    unfolding mark
    mark_failed-IsSound out sound = record {
      closed = λ h e. cc;
      marked = λ e. cc;
      kept = λ e c k. cc;
      known = λ e. cc;
      traced = descendants-IsTraced lib laws ng m.gcs roots before sound.traced;
    }

  -- The two ways on from a call of `Descendants`, and the failed send.
  after_mark-cases :
      (sends : ℕ → Bool) (ctx_err : String)
      → (P : List (Result Cid) × Outcome lib → Type 0)
      → (next : Marking lib → List (Result Cid) × Outcome lib) → (r : Marking lib × Option String)
      → ((out : List (Result Cid)) (e : GcError Cid) → P (out, failed e))
      → (r.1 ≡ none → P (next r.0))
      → ((out : List (Result Cid)) → P (next (record r.0 { errors = true; output = out })))
      → P (after_mark lib sends ctx_err r next)
  unfolding after_mark
  after_mark-cases sends ctx_err P next (m, none) fail ok error_found = ok refl
  after_mark-cases sends ctx_err P next (m, some e) fail ok error_found =
      if_cases P (sends (length m.output)) _ _ (error_found _) (fail m.output (lib_error ctx_err))

  -- `DirectKeys` adds each key, and nothing below it.
  add_direct_grows :
      (s : CidSet) (keys : List (StreamedPin Cid)) (k : Cid)
      → has s k ≡ true
      → has (add_direct lib s keys).0 k ≡ true
  unfolding add_direct
  add_direct_grows s [] k h = h
  add_direct_grows s (pin_error e ∷ keys) k h = h
  add_direct_grows s (pinned c ∷ keys) k h =
      add_direct_grows (add (to_cid_v1 lib c) s) keys k
        ((laws.has-add k (to_cid_v1 lib c) s).1 (inr h))

  add_direct_marks :
      (s : CidSet) (keys : List (StreamedPin Cid))
      → (add_direct lib s keys).1 ≡ none
      → HasAll lib laws ng (add_direct lib s keys).0 (direct_of keys)
  unfolding add_direct
  add_direct_marks s [] ok c m = absurd m
  add_direct_marks s (pin_error e ∷ keys) ok c m = cc
  add_direct_marks s (pinned d ∷ keys) ok c (inr m) =
      add_direct_marks (add (to_cid_v1 lib d) s) keys ok c m
  add_direct_marks s (pinned d ∷ keys) ok c (inl e) =
      add_direct_grows (add (to_cid_v1 lib d) s) keys (to_cid_v1 lib c)
        ((laws.has-add (to_cid_v1 lib c) (to_cid_v1 lib d) s).1 (inl (ap (to_cid_v1 lib) e)))

  -- what it adds are these keys
  add_direct_only :
      (s : CidSet) (keys : List (StreamedPin Cid)) (k : Cid)
      → has (add_direct lib s keys).0 k ≡ true
      → (has s k ≡ true) ⊎ ((c : Cid) × In c (direct_of keys) × (to_cid_v1 lib c ≡ k))
  unfolding add_direct
  add_direct_only s [] k h = inl h
  add_direct_only s (pin_error e ∷ keys) k h = inl h
  add_direct_only s (pinned d ∷ keys) k h =
      elim (add_direct_only (add (to_cid_v1 lib d) s) keys k h) [
        | inr (c, m, e) ↦ inr (c, inr m, e)
        | inl old ↦ elim ((laws.has-add k (to_cid_v1 lib d) s).0 old) [
          | inl e ↦ inr (d, inl refl, e)
          | inr older ↦ inl older
        ]
      ]
