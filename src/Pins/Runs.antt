-- ===== src/Pins/Runs.antt =====
-- Runs of the listing and the changes of pins, and instances of their theorems.
use bock_ipfs.Base.Results.{Result, ok}
use bock_ipfs.Base.{
  ◌==◌, if◌then◌else◌, nat_eq, All, contains, ℕ, String, ◌≡◌, refl, Bool, true, false, Option, none,
  some, List, [], ◌∷◌,
}
use bock_ipfs.Pins.Listing.{
  Streamed, invalid_type, contains_text, send, mark_stream, add_to_result_keys, add_stream,
  add_nodes, walk_roots, then_stage, keeping, recursive_stage, direct_stage, indirect_stage,
  walk_stage, pin_ls_all, ls,
}
use bock_ipfs.Pins.Listed.{Distinct}
use bock_ipfs.Pins.Sending.{sent}
use bock_ipfs.Pins.Priority.{IsTyped, pin_ls_all_lem}
use bock_ipfs.Pins.Changing.{
  PinCall, pin_lock, pin_unlock, pin, unpin, update_pin, provide, flush, failed, then_call, add, rm,
  update,
}
use bock_ipfs.Pins.Locking.{IsGuarded, changes_lem}

-- below 1 are 2 and 3, and below 3 is 4
abbrev walk : List ℕ → ℕ → List ℕ × Option String
walk walked k = (if k == 1 then 2 ∷ 3 ∷ 4 ∷ [] else [], none)

abbrev recursive : List (Streamed ℕ)
recursive = ok (1, "site") ∷ ok (5, "blog") ∷ []

abbrev direct : List (Streamed ℕ)
direct = ok (3, "page") ∷ ok (5, "") ∷ []

abbrev five : List Bool
five = true ∷ true ∷ true ∷ true ∷ true ∷ []

-- 5 is recursive although it is direct too, and 3 is direct although it is below 1
everything : sent (pin_ls_all "" walk recursive direct "all" five).0 ≡ 1 ∷ 5 ∷ 3 ∷ 2 ∷ 4 ∷ []
unfolding pin_ls_all then_stage recursive_stage add_stream add_to_result_keys send direct_stage
    keeping indirect_stage walk_stage walk_roots add_nodes
everything = refl

only_indirect : sent (pin_ls_all "" walk recursive direct "indirect" five).0 ≡ 2 ∷ 4 ∷ []
unfolding pin_ls_all then_stage recursive_stage direct_stage indirect_stage keeping mark_stream
    walk_stage walk_roots add_nodes add_to_result_keys send
only_indirect = refl

by_name : sent (pin_ls_all "log" walk recursive direct "all" five).0 ≡ 5 ∷ []
unfolding pin_ls_all then_stage recursive_stage add_stream add_to_result_keys contains_text send
    direct_stage keeping indirect_stage walk_stage walk_roots add_nodes
by_name = refl

wrong_type : ls "" walk recursive direct "some" five ≡ ([], some (invalid_type "some"))
unfolding ls
wrong_type = refl

pin_ls_all_lem_example :
    let (l, keys, failure) = pin_ls_all "" walk recursive direct "all" five in
    Distinct l.out
    × All (IsTyped (1 ∷ 5 ∷ []) (3 ∷ 5 ∷ [])) l.out
    × (failure ≡ none
        → ◌≡◌ {A = String} "" ""
        → All (λ c. contains (sent l) c ≡ true) (1 ∷ 5 ∷ [])
          × All (λ c. contains (sent l) c ≡ true) (3 ∷ 5 ∷ []))
pin_ls_all_lem_example = pin_ls_all_lem "" walk recursive direct five

-- everything succeeds but the announcement
abbrev unreachable : PinCall ℕ → Option String
unreachable (provide c) = some "no peers"
unreachable _ = none

unlocked_after_error :
    add unreachable (ok 1) (ok (true, "x"))
    ≡ (pin_lock ∷ pin 1 true "x" ∷ provide 1 ∷ pin_unlock ∷ [], some (failed "no peers"))
unfolding add then_call
unlocked_after_error = refl

changes_lem_example :
    (IsGuarded false (add unreachable (ok 1) (ok (true, "x"))).0
      × ((add unreachable (ok 1) (ok (true, "x"))).1 ≡ none
          → (c : ℕ) × (recursive : Bool) × (name : String) × (◌≡◌ {A = Result String ℕ}
              (ok 1)
              (ok c))
            × (◌≡◌ {A = Result String (Bool × String)} (ok (true, "x")) (ok (recursive, name)))
            × ((add unreachable (ok 1) (ok (true, "x"))).0
                ≡ pin_lock ∷ pin c recursive name ∷ provide c ∷ flush ∷ pin_unlock ∷ [])))
    × (IsGuarded false (rm unreachable (ok 1) (ok true)).0
        × ((rm unreachable (ok 1) (ok true)).1 ≡ none
            → (c : ℕ) × (recursive : Bool) × (◌≡◌ {A = Result String ℕ} (ok 1) (ok c))
              × (◌≡◌ {A = Result String Bool} (ok true) (ok recursive))
              × ((rm unreachable (ok 1) (ok true)).0
                  ≡ pin_lock ∷ unpin c recursive ∷ flush ∷ pin_unlock ∷ [])))
    × (IsGuarded false (update unreachable (ok true) (ok 1) (ok 2)).0
        × ((update unreachable (ok true) (ok 1) (ok 2)).1 ≡ none
            → (c : ℕ) × (d : ℕ) × (unpinned : Bool) × (◌≡◌ {A = Result String ℕ} (ok 1) (ok c))
              × (◌≡◌ {A = Result String ℕ} (ok 2) (ok d))
              × (◌≡◌ {A = Result String Bool} (ok true) (ok unpinned))
              × ((update unreachable (ok true) (ok 1) (ok 2)).0
                  ≡ pin_lock ∷ update_pin c d unpinned ∷ flush ∷ pin_unlock ∷ [])))
changes_lem_example = changes_lem unreachable (ok 1) (ok 2) (ok (true, "x")) (ok true)
