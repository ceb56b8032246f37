-- ===== src/Gc/Sweep.antt =====
-- The sweeping half of kubo-master/gc/gc.go: `toRawCids` and `GC`.
pub mod Protection
pub mod Collection
pub mod Tests
use bock_ipfs.Base.{
  if◌then◌else◌, length, ℕ, ◌+◌, ◌%◌, ◌^◌, String, ◌≡◌, ◌≢◌, Bool, true, false, Option, none, some,
  List, [], ◌∷◌, ◌++◌,
}
use bock_ipfs.Gc.Library.{Links, Library}
use bock_ipfs.Gc.Mark.{
  GcError, lib_error, cannot_delete_some_blocks, cannot_delete_block, Result, key_removed, error,
  Context, is_done, Outcome, colored, failed, Pins, colored_set,
}

-- The blockstore that the collector sweeps, and what is documented of it: blocks are kept by the hash
-- of their CIDs, a deletion touches the block of its own hash alone, and one that reports no error
-- has removed it.
pub record Blockstore (lib : Library) : Type 1 where
  pub Store : Type 0
  pub has_block : Store → lib.Cid → Bool
  pub delete_block : Store → lib.Cid → Store × Option String
  pub delete_other :
      (s : Store) (k j : lib.Cid)
      → lib.hash k ≢ lib.hash j
      → has_block (delete_block s k).0 j ≡ has_block s j
  pub delete_gone :
      (s : Store) (k : lib.Cid)
      → (delete_block s k).1 ≡ none
      → has_block (delete_block s k).0 k ≡ false
  pub delete_only :
      (s : Store) (k j : lib.Cid) → has_block s j ≡ false → has_block (delete_block s k).0 j ≡ false

-- What the `select` of the loop gives: a key, whether the send after its deletion goes through, and
-- whether the context is done when the loop next asks for `ctx.Err()`; or the end of the context. The
-- list ends when the channel is closed.
pub data Event (Cid : Type 0) : Type 0 where
  key : Cid → (sent done : Bool) → Event Cid
  cancelled : Event Cid

-- What `AllKeysChan` returns.
pub data KeyChan (Cid : Type 0) : Type 0 where
  keychan : List (Event Cid) → KeyChan Cid
  keychan_error : String → KeyChan Cid

-- The datastore: whether it is a `GCDatastore`, and then what `CollectGarbage` returns.
pub data Datastore : Type 0 where
  plain : Datastore
  gc_datastore : Option String → Datastore

module _ (lib : Library) (bs : Blockstore lib) where
  open lib use {Cid, CidSet, hash, new_cid_v1, raw_codec, new_set, add, has, elements}
  open bs use {Store, delete_block}

  -- the key under which the blockstore reports the block of a CID
  pub raw_of : Cid → Cid
  raw_of c = new_cid_v1 raw_codec (hash c)

  pub add_raw : CidSet → List Cid → CidSet
  unfolding raw_of
  add_raw new_set [] = new_set
  add_raw new_set (c ∷ cs) = add_raw (add (raw_of c) new_set) cs

  -- `toRawCids`; the callback of `ForEach` returns no error.
  pub to_raw_cids : CidSet → CidSet
  unfolding add_raw
  to_raw_cids set = add_raw new_set (elements set)

  -- The blockstore and the variables of the loop.
  pub record Sweeping : Type 0 where
    pub store : Store
    pub errors : Bool
    pub removed : ℕ
    pub output : List (Result Cid)

  -- The deletion of one key, and whether the loop goes on.
  delete_key : Sweeping → Cid → Bool → Store × Option String → Sweeping × Bool
  delete_key st k sent (s, none) = (
    record {
      store = s;
      errors = st.errors;
      removed = (st.removed + 1) % 2 ^ 64;
      output = if sent then st.output ++ key_removed k ∷ [] else st.output;
    },
    sent,
  )
  delete_key st k sent (s, some e) = (
    record {
      store = s;
      errors = true;
      removed = (st.removed + 1) % 2 ^ 64;
      output = if sent then st.output ++ error (cannot_delete_block k e) ∷ [] else st.output;
    },
    sent,
  )

  -- One round of the loop that received a key.
  pub visit_key : CidSet → Sweeping → Cid → Bool → Sweeping × Bool
  unfolding delete_key
  visit_key gcs st k sent =
      if has gcs k then (st, true) else delete_key st k sent (delete_block st.store k)

  -- The loop, with whether the context is done when it asks, before each `select`.
  pub sweep : CidSet → Bool → Sweeping → List (Event Cid) → Sweeping
  unfolding visit_key
  sweep gcs true st events = st
  sweep gcs false st [] = st
  sweep gcs false st (cancelled ∷ events) = st
  sweep gcs false st (key k sent done ∷ events) =
      let (st', go_on) = visit_key gcs st k sent in
      let rest = sweep gcs done st' events in if go_on then rest else st'

  -- A last send, which the end of the context may prevent.
  try_send : (ℕ → Bool) → List (Result Cid) → GcError Cid → List (Result Cid)
  try_send sends out e = if sends (length out) then out ++ error e ∷ [] else out

  -- What follows the loop.
  collect : (ℕ → Bool) → Datastore → List (Result Cid) → List (Result Cid)
  unfolding try_send
  collect sends plain out = out
  collect sends (gc_datastore none) out = out
  collect sends (gc_datastore (some e)) out = try_send sends out (lib_error e)

  after_sweep : (ℕ → Bool) → Datastore → Sweeping → Store × List (Result Cid)
  unfolding try_send collect
  after_sweep sends dstor st = (
    st.store,
    if st.errors
        then (if sends (length st.output)
            then collect sends dstor (try_send sends st.output cannot_delete_some_blocks)
            else st.output)
        else collect sends dstor st.output,
  )

  -- The rest of `GC`, by what `ColoredSet` has returned.
  after_coloring :
      (ℕ → Bool)
      → Bool
      → KeyChan Cid
      → Datastore
      → Store
      → List (Result Cid)
      → Outcome lib
      → Store × List (Result Cid)
  unfolding to_raw_cids sweep try_send after_sweep
  after_coloring sends done keys dstor s out (failed e) = (s, try_send sends out e)
  after_coloring sends done (keychan_error e) dstor s out (colored gcs) =
      (s, try_send sends out (lib_error e))
  after_coloring sends done (keychan events) dstor s out (colored gcs) = after_sweep sends dstor (
      sweep (to_raw_cids gcs) done (record { store = s; errors = false; removed = 0; output = out })
        events)

  -- `GC`: the blockstore afterwards and the results that were sent. The blockstore's lock for
  -- the collector is held throughout, so no other writer comes in between.
  pub gc :
      (Cid → Links Cid)
      → (ℕ → Bool)
      → Context
      → Pins lib
      → List Cid
      → KeyChan Cid
      → Datastore
      → Store
      → Store × List (Result Cid)
  unfolding after_coloring
  gc ng sends ctx pins best_effort_roots keys dstor s =
      let (out, outcome) = colored_set lib ng sends ctx pins best_effort_roots [] in
      after_coloring sends (is_done ctx) keys dstor s out outcome
