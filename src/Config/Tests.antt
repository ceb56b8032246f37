-- ===== src/Config/Tests.antt =====
-- Values of the configuration that are read and written.
use bock_ipfs.Base.{ℕ, suc, ◌≡◌, refl, ◌≢◌, ◌↔◌, arith}
use bock_ipfs.Base.Results.{ok, err}
use bock_ipfs.Base.Int.{pos, negsuc}
use bock_ipfs.Config.Json.{Json, integer, invalid_priority}
use bock_ipfs.Config.Priority as Priority
use bock_ipfs.Config.Priority.{marshal, unmarshal, priority_round_trip}

priority_round_trip_example :
    ((j : Json) → (Priority.marshal (negsuc 4) ≡ ok j) ↔ (Priority.unmarshal j ≡ ok (negsuc 4)))
    × ((n : ℕ)
        → negsuc 4 ≡ negsuc (suc n)
        → (Priority.marshal (negsuc 4) ≡ err (invalid_priority (negsuc 4)))
          × ((j : Json) → Priority.unmarshal j ≢ ok (negsuc 4)))
priority_round_trip_example = priority_round_trip (negsuc 4) (omega arith)

priority_runs :
    (Priority.marshal (pos 7) ≡ ok (integer (pos 7)))
    × (Priority.unmarshal (integer (pos 7)) ≡ ok (pos 7))
unfolding Priority.marshal Priority.unmarshal
priority_runs = (refl, refl)
