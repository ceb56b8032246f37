-- ===== src/Gc/Trigger/Tests.antt =====
-- Runs of corerepo/gc.go on the graph in memory, and instances of its theorems.
use bock_ipfs.Gc.Mark.{lib_error, Result, key_removed, error}
use bock_ipfs.Base.{
  str_eq, if◌then◌else◌, ℕ, ◌+◌, ◌-◌, ◌*◌, ◌/◌, ◌≤◌, ◌<◌, String, ◌≡◌, refl, none, List, [], ◌∷◌,
  arith,
}
use bock_ipfs.Base.Results as Results
use bock_ipfs.Base.Results.{ok, err}
use bock_ipfs.Base.Int.{pos}
use bock_ipfs.Gc.Memory.{memory}
use bock_ipfs.Gc.Sweep.{keychan, plain}
use bock_ipfs.Gc.Sweep.Tests.{blocks, graph, one_pin, all_sent, calm, store, events}
use bock_ipfs.Gc.Trigger.{DatastoreConfig, Thresholds, thresholds, new_gc, World, maybe_gc}
use bock_ipfs.Gc.Trigger.Limits.{thresholds_bounds}

-- ten units: the threshold is 9
thresholds_bounds_example :
    ((thresholds 10 (pos 90)).gc_at * 100 ≤ 10 * 90)
    × (10 * 90 < (thresholds 10 (pos 90)).gc_at * 100 + 100)
    × ((thresholds 10 (pos 90)).gc_at ≤ 10)
    × ((10 - (thresholds 10 (pos 90)).gc_at < 10000000000) → (thresholds 10 (pos 90)).slack_gb ≡ 1)
    × ((10000000000 ≤ 10 - (thresholds 10 (pos 90)).gc_at)
        → (thresholds 10 (pos 90)).slack_gb ≡ (10 - (thresholds 10 (pos 90)).gc_at) / 10000000000)
thresholds_bounds_example = thresholds_bounds 10 90 (omega arith) (omega arith)

-- a tenth of 1e12 bytes is ten units of slack
slack_run : (thresholds 1000000000000 (pos 90)).slack_gb ≡ 10
unfolding thresholds
slack_run = refl

abbrev config : DatastoreConfig
config = record { storage_max = ""; storage_gc_watermark = pos 0 }

abbrev parse_sizes : String → Results.Result String ℕ
parse_sizes s = if str_eq s "10GB" then ok 10000000000 else Results.err "unhandled size name"

new_gc_run : new_gc (λ k. none) parse_sizes (ok config) ≡ ok (thresholds 10000000000 (pos 90))
unfolding new_gc
new_gc_run = refl

abbrev world : World memory blocks
world = record {
  ng = graph;
  sends = all_sent;
  ctx = calm;
  pins = one_pin;
  keys = keychan events;
  dstor = plain;
  stopped = none;
}

abbrev results : List (Result ℕ)
results = key_removed 1 ∷ error (lib_error "e") ∷ key_removed 2 ∷ []

-- the usage of 7 with 2 more is not above the threshold of 9
at_threshold :
    maybe_gc memory blocks (thresholds 10 (pos 90)) (ok 7) 2 world (ok []) store ≡ (store, none)
unfolding maybe_gc thresholds
at_threshold = refl

abbrev usage_limits : Thresholds
usage_limits = thresholds 10 (pos 90)
