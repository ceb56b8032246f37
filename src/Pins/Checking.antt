-- ===== src/Pins/Checking.antt =====
-- kubo-master/core/coreapi/pin.go: the memory of `checkPin` does not change its results.
use bock_ipfs.Base.Results.{Result, ok, err, Result-cases}
use bock_ipfs.Base.Dict.{lookup, insert, lookup-insert}
use bock_ipfs.Pins.Meaning.{status_of-IsFair, bad_nodes_sound, bad_nodes_complete}
use bock_ipfs.Base.{
  Bool-cases, Option-cases, Eq, In, All-In, is_empty, ℕ, zero, suc, ◌<◌, String, ◌≡◌, refl, ap, inl,
  inr, Bool, true, false, Option, none, some, List, [], ◌∷◌, arith,
}
use bock_ipfs.Pins.Verify.{
  PinStatus, Verified, status, stream_error, bad_status, good_status, add_child, Visited,
  check_links, remember, check_pin, verify_loop, verify,
}
use bock_ipfs.Pins.Reference.{
  add_all, add_all_agree, status_of, Descends, status_of_stable, Reaches,
}

module _ {Cid : Type 0} ⦃e : Eq Cid⦄ (get_links : Cid → Result String (List Cid)) (height : Cid → ℕ)
    (down : Descends get_links height) where
  -- the status of a node
  abbrev true_status : Cid → PinStatus Cid
  true_status c = status_of get_links (suc (height c)) c

  -- Everything that is remembered is true.
  abbrev pub IsTrue : Visited Cid → Type 0
  IsTrue visited = (c : Cid) (st : PinStatus Cid) → lookup c visited ≡ some st → st ≡ true_status c

  true_bad : (c : Cid) (x : String) → get_links c ≡ err x → bad_status c x ≡ true_status c
  unfolding status_of
  true_bad c x bad = ground arith

  true_links :
      (c : Cid) (links : List Cid)
      → get_links c ≡ ok links
      → true_status c ≡ add_all true_status (good_status c) links
  unfolding status_of
  true_links c links fetched =
      let agree =
        add_all_agree (λ d. status_of get_links (height c) d) true_status (good_status c) links
          (λ d m.
            let lt = All-In (λ d. height d < height c) d links (down c links fetched) m in
            status_of_stable get_links height down (height c) (suc (height d)) d (omega arith)
              (omega arith)) in
      ground (arith, agree)

  insert-IsTrue :
      (root : Cid) (visited : Visited Cid)
      → IsTrue visited
      → IsTrue (insert root (true_status root) visited)
  insert-IsTrue root visited h c st found = elim (Bool-cases (e.beq root c)) [
    | inl same ↦
        let at : root ≡ c = (e.beq_iff root c).0 same in
        rw (← at) (ground (arith, lookup-insert root c (true_status root) visited))
    | inr other ↦ h c st (ground (arith, lookup-insert root c (true_status root) visited))
  ]

  -- a true result, and only truths remembered
  abbrev Correct : Visited Cid × Option (PinStatus Cid) → PinStatus Cid → Type 0
  Correct (visited, res) st = (res ≡ some st) × IsTrue visited

  remember-Correct :
      (root : Cid) (r : Visited Cid × Option (PinStatus Cid))
      → Correct r (true_status root)
      → Correct (remember root r) (true_status root)
  unfolding remember
  remember-Correct root (visited, none) h = absurd (ground (arith, h.0))
  remember-Correct root (visited, some st) h =
      let same : st ≡ true_status root = cc (h.0) in
      (ap some same, rw same (insert-IsTrue root visited h.1))

  check_links-Correct :
      (check : Visited Cid → Cid → Visited Cid × Option (PinStatus Cid)) (visited : Visited Cid)
      (st : PinStatus Cid) (links : List Cid)
      → ((v : Visited Cid) (c : Cid) → In c links → IsTrue v → Correct (check v c) (true_status c))
      → IsTrue visited
      → Correct (check_links check visited st links) (add_all true_status st links)
  unfolding check_links add_all
  check_links-Correct check visited st [] h true_yet = (refl, true_yet)
  check_links-Correct check visited st (c ∷ cs) h true_yet =
      let (found, true_then) = h visited c (inl refl) true_yet in
      rw (found, check_links)
        (check_links-Correct check (check visited c).0 (add_child st (true_status c)) cs
          (λ v d m. h v d (inr m)) true_then)

  pub check_pin_lem :
      (fuel : ℕ) (visited : Visited Cid) (root : Cid)
      → height root < fuel
      → IsTrue visited
      → Correct (check_pin get_links fuel visited root) (true_status root)
  unfolding check_pin
  check_pin_lem zero visited root enough h = absurd (omega arith)
  check_pin_lem (suc fuel) visited root enough h = elim (Option-cases (lookup root visited)) [
    | inr (st, found) ↦ rw (found, check_pin) (ap some (h root st found), h)
    | inl new ↦ elim (Result-cases (get_links root)) [
      | inr (x, bad) ↦
          rw (new, bad, check_pin, true_bad root x bad) (refl, insert-IsTrue root visited h)
      | inl (links, fetched) ↦
          let children =
            check_links-Correct (λ v c. check_pin get_links fuel v c) visited (good_status root)
              links
              (λ v c m t.
                let lt = All-In (λ d. height d < height root) c links (down root links fetched) m in
                check_pin_lem fuel v c (omega arith) t)
              h in
          rw (new, fetched, check_pin)
            (remember-Correct root _ (rw (true_links root links fetched) children))
    ]
  ]

  -- what `Verify` sends, with the status of every pin found without a memory
  abbrev pub expected : List (Result String Cid) → List Bool → List (Verified Cid)
  expected [] sends = []
  expected (p ∷ pins) [] = []
  expected (p ∷ pins) (false ∷ sends) = []
  expected (err x ∷ pins) (true ∷ sends) = stream_error x ∷ expected pins sends
  expected (ok root ∷ pins) (true ∷ sends) = status (true_status root) ∷ expected pins sends

  -- the roots of the stream lie below the fuel
  abbrev pub Within : ℕ → List (Result String Cid) → Type 0
  Within fuel [] = Unit {0}
  Within fuel (err x ∷ pins) = Within fuel pins
  Within fuel (ok root ∷ pins) = (height root < fuel) × Within fuel pins

  verify_loop_lem :
      (fuel : ℕ) (visited : Visited Cid) (pins : List (Result String Cid)) (sends : List Bool)
      → Within fuel pins
      → IsTrue visited
      → verify_loop get_links fuel visited pins sends ≡ expected pins sends
  unfolding verify_loop
  verify_loop_lem fuel visited [] sends w h = refl
  verify_loop_lem fuel visited (p ∷ pins) [] w h = refl
  verify_loop_lem fuel visited (p ∷ pins) (false ∷ sends) w h = refl
  verify_loop_lem fuel visited (err x ∷ pins) (true ∷ sends) w h =
      ap (λ l. stream_error x ∷ l) (verify_loop_lem fuel visited pins sends w h)
  verify_loop_lem fuel visited (ok root ∷ pins) (true ∷ sends) w h =
      let (found, true_then) = check_pin_lem fuel visited root w.0 h in
      let rest =
        verify_loop_lem fuel (check_pin get_links fuel visited root).0 pins sends w.1 true_then in
      ground (arith, found, rest)

  -- `Verify`, whose memory is shared by all pins, sends for every pin the status that the pin has
  -- by itself, up to the end of the context, where links lead to lesser heights and the fuel is
  -- above the heights of the pins.
  pub verify_lem :
      (fuel : ℕ) (pins : List (Result String Cid)) (sends : List Bool)
      → Within fuel pins
      → verify get_links fuel pins sends ≡ expected pins sends
  unfolding verify lookup
  verify_lem fuel pins sends w = verify_loop_lem fuel [] pins sends w (λ c st found. cc)

  -- `checkPin` of a root above whose height the fuel is, and with true statuses in memory, ends
  -- with a status: its bad nodes are exactly the nodes reached from the root whose links cannot be
  -- fetched, each with its error, and it is good exactly if there are none.
  pub check_pin_verdict :
      (fuel : ℕ) (visited : Visited Cid) (root : Cid)
      → height root < fuel
      → IsTrue visited
      → (st : PinStatus Cid) × ((check_pin get_links fuel visited root).1 ≡ some st)
        × (st.is_ok ≡ is_empty st.bad_nodes)
        × ((d : Cid) (x : String)
            → In (record { cid = d; error = x }) st.bad_nodes
            → Reaches get_links d root × (get_links d ≡ err x))
        × ((d : Cid) (x : String)
            → Reaches get_links d root
            → get_links d ≡ err x
            → In (record { cid = d; error = x }) st.bad_nodes)
  check_pin_verdict fuel visited root enough h = (
    true_status root,
    (check_pin_lem fuel visited root enough h).0,
    status_of-IsFair get_links (suc (height root)) root,
    λ d x m. bad_nodes_sound get_links (suc (height root)) root (record { cid = d; error = x }) m,
    λ d x r bad.
        bad_nodes_complete get_links height down (suc (height root)) d root x (omega arith) r bad,
  )
