-- ===== src/Gc/Mark.antt =====
-- The marking half of kubo-master/gc/gc.go: `Descendants` and `ColoredSet`.
pub mod Descending
pub mod Coloring
use text.Mathlib.Text.{find?}
use bock_ipfs.Base.{
  ◌==◌, if◌then◌else◌, length, is_empty, ℕ, zero, suc, String, ◌≡◌, refl, ◌⊎◌, inl, inr, Bool, true,
  false, not, ◌||◌, Option, none, some, List, [], ◌∷◌, ◌++◌,
}
use bock_ipfs.Gc.Library.{
  Links, links, not_found, link_error, Fetched, got, fetch_failed, Walked, Library, visit_by,
}

-- The errors that the file makes, and those that it passes on, by their texts.
pub data GcError (Cid : Type 0) : Type 0 where
  lib_error : String → GcError Cid
  cannot_fetch_all_links cannot_delete_some_blocks : GcError Cid
  cannot_fetch_links cannot_delete_block : Cid → String → GcError Cid

-- `type Result`: the key of a removed block, or an error.
pub data Result (Cid : Type 0) : Type 0 where
  key_removed : Cid → Result Cid
  error : GcError Cid → Result Cid

-- `pin.StreamedPin`: the key of a pin, or an error of the pinner.
pub data StreamedPin (Cid : Type 0) : Type 0 where
  pinned : Cid → StreamedPin Cid
  pin_error : String → StreamedPin Cid

-- What a `select` on a stream of pins and on `ctx.Done()` gives, until the stream is closed.
pub data Received (Cid : Type 0) : Type 0 where
  received : StreamedPin Cid → Received Cid
  ctx_done : String → Received Cid

-- Where the context ends while the best-effort roots are being sent: not at all, or after that many
-- roots, and then `Descendants` notices the end of the context or finds its channel closed.
pub data Cut : Type 0 where
  uncut : Cut
  cut_after : ℕ → (noticed : Bool) → Cut

pub Cut-cases : (c : Cut) → (c ≡ uncut) ⊎ ((n : ℕ) × (noticed : Bool) × (c ≡ cut_after n noticed))
Cut-cases uncut = inl refl
Cut-cases (cut_after n noticed) = inr (n, noticed, refl)

-- The context of a run: the error that it ends with, and where it ends.
pub record Context : Type 0 where
  pub err : String
  pub cut : Cut
  pub ended : Bool

-- `ctx.Err() != nil` behind the marking
abbrev pub is_done : Context → Bool
is_done ctx = elim ctx.cut [ uncut ↦ ctx.ended | cut_after n noticed ↦ true ]

-- `strings.Contains`
abbrev pub str_contains : String → String → Bool
str_contains s t = elim (find? s t) [ none ↦ false | some n ↦ true ]

module _ (lib : Library) where
  open lib use {
    Cid, CidSet, version, codec, hash, new_cid_v1, new_set, add, has, validate_cid, walk,
    below_minimum_hash_length, possibly_insecure_hash_function,
  }

  -- `toCidV1`
  unfoldable pub to_cid_v1 : Cid → Cid
  to_cid_v1 c = if version c == 0 then new_cid_v1 (codec c) (hash c) else c

  -- `verifyGetLinks` of `Descendants`, around a `getLinks`
  unfoldable pub verify_get_links : (Cid → Fetched Cid) → Cid → Fetched Cid
  verify_get_links get_links c = elim (validate_cid c) [
    | some e ↦ fetch_failed e
    | none ↦ get_links c
  ]

  -- `verboseCidError`; the prefix stands for the text that is put round the error
  verbose_cid_error : String → String
  verbose_cid_error e =
      if str_contains e below_minimum_hash_length || str_contains e possibly_insecure_hash_function
      then "insecure hash, please run 'ipfs pin verify'"
      else e

  -- `Descendants`: the set, the nodes whose links were asked for, and the error.
  unfoldable pub descendants :
      (Cid → Fetched Cid) → CidSet → List (Received Cid) → Walked Cid CidSet
  unfolding verbose_cid_error
  descendants get_links set [] = record { set = set; asked = []; err = none }
  descendants get_links set (ctx_done e ∷ roots) = record { set = set; asked = []; err = some e }
  descendants get_links set (received (pin_error e) ∷ roots) = record {
    set = set;
    asked = [];
    err = some e;
  }
  descendants get_links set (received (pinned root) ∷ roots) =
      let walked = walk (verify_get_links get_links) root (visit_by lib to_cid_v1) set in
      let rest = descendants get_links walked.set roots in
      elim walked.err [
        | none ↦ record rest { asked = walked.asked ++ rest.asked }
        | some e ↦ record walked { err = some (verbose_cid_error e) }
      ]

  -- `getLinks` and `bestEffortGetLinks` of `ColoredSet`: an error is reported, and hidden from the
  -- walk, which sees a node without links.
  pub get_links_of : (Cid → Links Cid) → Cid → Fetched Cid
  get_links_of ng c = elim (ng c) [
    | links ls ↦ got ls
    | not_found e ↦ got []
    | link_error e ↦ got []
  ]

  -- What a call of `getLinks` (of `bestEffortGetLinks`, if the flag is set) sends to the output.
  pub report : Bool → Cid → Links Cid → List (Result Cid)
  report best_effort c (links ls) = []
  report best_effort c (not_found e) =
      if best_effort then [] else error (cannot_fetch_links c e) ∷ []
  report best_effort c (link_error e) = error (cannot_fetch_links c e) ∷ []

  -- What the walks send, for the nodes that they asked. A CID that is not valid is refused before
  -- its links are asked for.
  pub reports : (Cid → Links Cid) → Bool → List Cid → List (Result Cid)
  unfolding report
  reports ng best_effort [] = []
  reports ng best_effort (c ∷ cs) =
      (elim (validate_cid c) [ some e ↦ [] | none ↦ report best_effort c (ng c) ])
      ++ reports ng best_effort cs

  -- The variables `gcs`, `errors` and `output` of `ColoredSet`.
  pub record Marking : Type 0 where
    pub gcs : CidSet
    pub errors : Bool
    pub output : List (Result Cid)

  -- What `ColoredSet` returns.
  pub data Outcome : Type 0 where
    colored : CidSet → Outcome
    failed : GcError Cid → Outcome

  -- One call of `Descendants` in `ColoredSet`, with what its `getLinks` does on the way.
  pub mark : (Cid → Links Cid) → Bool → Marking → List (Received Cid) → Marking × Option String
  unfolding descendants get_links_of reports
  mark ng best_effort m roots =
      let walked = descendants (get_links_of ng) m.gcs roots in
      let sent = reports ng best_effort walked.asked in
      (
        record {
          gcs = walked.set;
          errors = m.errors || not (is_empty sent);
          output = m.output ++ sent;
        },
        walked.err,
      )

  -- The `if err != nil` after each call. `sends` tells of the n-th send on the output whether it
  -- goes through; else the context is done, with the error `ctx_err`.
  pub after_mark :
      (ℕ → Bool)
      → String
      → Marking × Option String
      → (Marking → List (Result Cid) × Outcome)
      → List (Result Cid) × Outcome
  after_mark sends ctx_err (m, none) next = next m
  after_mark sends ctx_err (m, some e) next =
      if sends (length m.output)
      then next (record m { errors = true; output = m.output ++ error (lib_error e) ∷ [] })
      else (m.output, failed (lib_error ctx_err))

  -- The loop over `DirectKeys`; the keys that are added stay with the error that ends it.
  pub add_direct : CidSet → List (StreamedPin Cid) → CidSet × Option String
  unfolding to_cid_v1
  add_direct gcs [] = (gcs, none)
  add_direct gcs (pin_error e ∷ keys) = (gcs, some e)
  add_direct gcs (pinned c ∷ keys) = add_direct (add (to_cid_v1 c) gcs) keys

  after_direct :
      Marking
      → CidSet × Option String
      → (Marking → List (Result Cid) × Outcome)
      → List (Result Cid) × Outcome
  after_direct m (gcs, none) next = next (record m { gcs = gcs })
  after_direct m (gcs, some e) next = (m.output, failed (lib_error e))

  finish : Marking → List (Result Cid) × Outcome
  finish m = (m.output, if m.errors then failed cannot_fetch_all_links else colored m.gcs)

  -- What the pinner streams: `RecursiveKeys`, `DirectKeys` and `InternalPins`.
  pub record Pins : Type 0 where
    pub recursive : List (Received Cid)
    pub direct : List (StreamedPin Cid)
    pub internal : List (Received Cid)

  -- The channel of the best-effort roots, which is closed when they are sent or the context ends.
  unfoldable pub root_stream : String → Cut → List Cid → List (Received Cid)
  root_stream e uncut [] = []
  root_stream e uncut (c ∷ cs) = received (pinned c) ∷ root_stream e uncut cs
  root_stream e (cut_after n true) [] = ctx_done e ∷ []
  root_stream e (cut_after n false) [] = []
  root_stream e (cut_after zero true) (c ∷ cs) = ctx_done e ∷ []
  root_stream e (cut_after zero false) (c ∷ cs) = []
  root_stream e (cut_after (suc n) noticed) (c ∷ cs) =
      received (pinned c) ∷ root_stream e (cut_after n noticed) cs

  abbrev pub unmarked : List (Result Cid) → Marking
  unmarked out = record { gcs = new_set; errors = false; output = out }

  -- `ColoredSet`, with `ng` the node getter and `out` what the output holds before.
  unfoldable pub colored_set :
      (Cid → Links Cid)
      → (ℕ → Bool)
      → Context
      → Pins
      → List Cid
      → List (Result Cid)
      → List (Result Cid) × Outcome
  unfolding mark after_mark add_direct after_direct finish root_stream
  colored_set ng sends ctx pins best_effort_roots out =
      let roots = root_stream ctx.err ctx.cut best_effort_roots in
      after_mark sends ctx.err (mark ng false (unmarked out) pins.recursive) λ m1.
        after_mark sends ctx.err (mark ng true m1 roots) λ m2.
          after_direct m2 (add_direct m2.gcs pins.direct)
            λ m3. after_mark sends ctx.err (mark ng false m3 pins.internal) finish
