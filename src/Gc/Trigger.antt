-- ===== src/Gc/Trigger.antt =====
-- kubo-master/core/corerepo/gc.go: when the collector runs, and what is made of its results.
pub mod Limits
pub mod Running
mod Tests
use bock_ipfs.Gc.Mark.{GcError, Result, key_removed, error, Context, Pins}
use bock_ipfs.Base.{
  ltb, str_eq, if◌then◌else◌, nat_eq, string_eq, first, ℕ, ◌+◌, ◌-◌, ◌*◌, ◌/◌, ◌%◌, ◌^◌, String,
  Bool, false, Option, none, some, List, [], ◌∷◌, ◌++◌,
}
use bock_ipfs.Base.Results.{ok, err}
use bock_ipfs.Base.Results as Results
use bock_ipfs.Base.Int.{ℤ, pos, negsuc, int_beq}
use bock_ipfs.Gc.Library.{Links, Library}
use bock_ipfs.Gc.Sweep.{Blockstore, KeyChan, Datastore, gc}

-- The fields of the configuration that `NewGC` reads.
pub record DatastoreConfig : Type 0 where
  pub storage_max : String
  pub storage_gc_watermark : ℤ

-- The fields of `GC` that `NewGC` computes.
pub record Thresholds : Type 0 where
  pub max : ℕ
  pub gc_at : ℕ
  pub slack_gb : ℕ

-- `uint64` of an `int64`
pub to_uint64 : ℤ → ℕ
to_uint64 (pos n) = n % 2 ^ 64
to_uint64 (negsuc n) = 2 ^ 64 - 1 - n % 2 ^ 64

-- the arithmetic of `NewGC` on `uint64`, with its constant 10e9
pub thresholds : ℕ → ℤ → Thresholds
unfolding to_uint64
thresholds storage_max watermark =
    let storage_gc = storage_max * to_uint64 watermark % 2 ^ 64 / 100 in
    let slack = (storage_max + 2 ^ 64 - storage_gc) % 2 ^ 64 / 10000000000 in
    record { max = storage_max; gc_at = storage_gc; slack_gb = if ltb slack 1 then 1 else slack }

-- The two `if`s of `NewGC` that fill in the defaults; `write` gives the error of `SetConfigKey`, if
-- any, by the key. The configuration is returned as it is stored afterwards.
pub default_max : (String → Option String) → DatastoreConfig → Results.Result String DatastoreConfig
default_max write cfg =
    if str_eq cfg.storage_max ""
    then elim (write "Datastore.StorageMax") [
      | some e ↦ err e
      | none ↦ ok (record cfg { storage_max = "10GB" })
    ]
    else ok cfg

pub default_watermark :
    (String → Option String) → DatastoreConfig → Results.Result String DatastoreConfig
default_watermark write cfg =
    if int_beq cfg.storage_gc_watermark (pos 0)
    then elim (write "Datastore.StorageGCWatermark") [
      | some e ↦ err e
      | none ↦ ok (record cfg { storage_gc_watermark = pos 90 })
    ]
    else ok cfg

-- `NewGC`, with what `Config` returns and the parser of sizes of another library
pub new_gc :
    (String → Option String)
    → (String → Results.Result String ℕ)
    → Results.Result String DatastoreConfig
    → Results.Result String Thresholds
unfolding thresholds default_max default_watermark
new_gc write parse_bytes (err e) = err e
new_gc write parse_bytes (ok cfg) = elim (default_max write cfg) [
  | err e ↦ err e
  | ok cfg1 ↦ elim (default_watermark write cfg1) [
    | err e ↦ err e
    | ok cfg2 ↦ elim (parse_bytes cfg2.storage_max) [
      | err e ↦ err e
      | ok max ↦ ok (thresholds max cfg2.storage_gc_watermark)
    ]
  ]
]

-- An error that `CollectResult` gathers: of a result, or of the context.
pub data Failure (Cid : Type 0) : Type 0 where
  gc_failure : GcError Cid → Failure Cid
  ctx_failure : String → Failure Cid

-- What the functions return: an error as it is, `MultiError`, or an error of another library.
pub data RunError (Cid : Type 0) : Type 0 where
  single : Failure Cid → RunError Cid
  multi_error : List (Failure Cid) → Failure Cid → RunError Cid
  other_error : String → RunError Cid

-- the last of a list that is not empty, and what stands before it
pub split_last :
    {Cid : Type 0} → Failure Cid → List (Failure Cid) → List (Failure Cid) × Failure Cid
split_last e [] = ([], e)
split_last e (f ∷ es) = let (before, last) = split_last f es in (e ∷ before, last)

-- the switch over `len(errors)`, with `NewMultiError`
pub summarize : {Cid : Type 0} → List (Failure Cid) → Option (RunError Cid)
unfolding split_last
summarize [] = none
summarize (e ∷ []) = some (single e)
summarize (e ∷ f ∷ es) =
    let (before, last) = split_last e (f ∷ es) in some (multi_error before last)

-- The loop of `CollectResult` over the results that come before the channel is closed (none) or the
-- context is done: the errors, and the keys for which the callback, if there is one, is called.
pub collect_loop :
    {Cid : Type 0}
    → Bool
    → List (Failure Cid)
    → List Cid
    → List (Result Cid)
    → Option String
    → List (Failure Cid) × List Cid
collect_loop cb errors called [] none = (errors, called)
collect_loop cb errors called [] (some e) = (errors ++ ctx_failure e ∷ [], called)
collect_loop cb errors called (error e ∷ results) end =
    collect_loop cb (errors ++ gc_failure e ∷ []) called results end
collect_loop cb errors called (key_removed k ∷ results) end =
    collect_loop cb errors (if cb then called ++ k ∷ [] else called) results end

-- `CollectResult`
pub collect_result :
    {Cid : Type 0} → Bool → List (Result Cid) → Option String → Option (RunError Cid) × List Cid
unfolding collect_loop summarize
collect_result cb results end =
    let (errors, called) = collect_loop cb [] [] results end in (summarize errors, called)

module _ (lib : Library) (bs : Blockstore lib) where
  open lib use {Cid}
  open bs use {Store}

  -- What a run of the collector meets: the node getter, the sends that go through, the
  -- context, the pins, the keys of the blockstore and its datastore, and how many of the results
  -- come before the context is done, if it is done.
  pub record World : Type 0 where
    pub ng : Cid → Links Cid
    pub sends : ℕ → Bool
    pub ctx : Context
    pub pins : Pins lib
    pub keys : KeyChan Cid
    pub dstor : Datastore
    pub stopped : Option ℕ

  taken : Option ℕ → List (Result Cid) → List (Result Cid)
  taken none results = results
  taken (some n) results = first n results

  ended : String → Option ℕ → Option String
  ended e none = none
  ended e (some n) = some e

  -- `GarbageCollect`, with what `BestEffortRoots` returns
  pub garbage_collect :
      World → Results.Result String (List Cid) → Store → Store × Option (RunError Cid)
  unfolding collect_result taken ended
  garbage_collect w (err e) s = (s, some (other_error e))
  garbage_collect w (ok roots) s =
      let (s', results) = gc lib bs w.ng w.sends w.ctx w.pins roots w.keys w.dstor s in
      (s', (collect_result false (taken w.stopped results) (ended w.ctx.err w.stopped)).0)

  -- `maybeGC`, with what `GetStorageUsage` returns
  pub maybe_gc :
      Thresholds
      → Results.Result String ℕ
      → ℕ
      → World
      → Results.Result String (List Cid)
      → Store
      → Store × Option (RunError Cid)
  unfolding garbage_collect
  maybe_gc t (err e) offset w roots s = (s, some (other_error e))
  maybe_gc t (ok storage) offset w roots s =
      if ltb t.gc_at ((storage + offset) % 2 ^ 64) then garbage_collect w roots s else (s, none)
