-- ===== src/Pins/Sending.antt =====
-- kubo-master/core/coreapi/pin.go: without a name to filter by, `pinLsAll` sends all that it marks.
use bock_ipfs.Base.Results.{ok, err}
use bock_ipfs.Base.{
  Bool-cases, Option-cases, Eq, contains, String, ◌≡◌, sym, subst, inl, inr, true, ◌||◌, Option,
  none, List, [], ◌∷◌, ◌++◌, map, arith,
}
use bock_ipfs.Pins.Listing.{
  PinInfo, Streamed, LsError, Listing, send, add_to_result_keys, add_stream, add_nodes, walk_roots,
}

module _ {Cid : Type 0} ⦃e : Eq Cid⦄ where
  -- the CIDs that were sent
  abbrev pub sent : Listing Cid → List Cid
  sent l = map (λ (p : PinInfo Cid). p.cid) l.out

  sent-append :
      (ps : List (PinInfo Cid)) (p : PinInfo Cid) (c : Cid)
      → contains (map (λ (q : PinInfo Cid). q.cid) (ps ++ p ∷ [])) c
        ≡ (contains (map (λ (q : PinInfo Cid). q.cid) ps) c || e.beq p.cid c)
  sent-append [] p c = ground arith
  sent-append (q ∷ ps) p c = ground (arith, sent-append ps p c)

  -- everything that is marked was sent
  abbrev pub IsSent : Listing Cid → Type 0
  IsSent l = (c : Cid) → contains l.emitted c ≡ true → contains (sent l) c ≡ true

  add_to_result_keys-IsSent :
      (l : Listing Cid) (c : Cid) (name type_str : String)
      → IsSent l
      → (add_to_result_keys "" l c name type_str).1 ≡ none
      → IsSent (add_to_result_keys "" l c name type_str).0
  unfolding add_to_result_keys send
  add_to_result_keys-IsSent l c name type_str all fine d there =
      let p : PinInfo Cid = record { pin_type = type_str; cid = c; name = name } in
      ground (arith, all d, sent-append l.out p d)

  pub add_stream-IsSent :
      (l : Listing Cid) (type_str : String) (keys : List Cid) (pins : List (Streamed Cid))
      → IsSent l
      → (add_stream "" l type_str keys pins).2 ≡ none
      → IsSent (add_stream "" l type_str keys pins).0
  unfolding add_stream
  add_stream-IsSent l type_str keys [] all fine = all
  add_stream-IsSent l type_str keys (err x ∷ pins) all fine = cc
  add_stream-IsSent l type_str keys (ok (c, name) ∷ pins) all fine =
      elim (Option-cases (add_to_result_keys "" l c name type_str).1) [
        | inr (x, failing) ↦ absurd (ground arith)
        | inl good ↦
            let l1 = (add_to_result_keys "" l c name type_str).0 in
            let step : add_stream "" l type_str keys (ok (c, name) ∷ pins)
                ≡ add_stream "" l1 type_str (keys ++ c ∷ []) pins =
              ground arith in
            subst (λ (r : Listing Cid × List Cid × Option LsError). IsSent r.0) (sym step)
              (add_stream-IsSent l1 type_str (keys ++ c ∷ []) pins
                (add_to_result_keys-IsSent l c name type_str all good) (rw step at fine))
      ]

  add_nodes-IsSent :
      (l : Listing Cid) (nodes : List Cid)
      → IsSent l
      → (add_nodes "" l nodes).1 ≡ none
      → IsSent (add_nodes "" l nodes).0
  unfolding add_nodes
  add_nodes-IsSent l [] all fine = all
  add_nodes-IsSent l (c ∷ cs) all fine = elim (Bool-cases (contains l.emitted c)) [
    | inl old ↦
        let step : add_nodes "" l (c ∷ cs) ≡ add_nodes "" l cs = ground arith in
        subst (λ (r : Listing Cid × Option LsError). IsSent r.0) (sym step)
          (add_nodes-IsSent l cs all (rw step at fine))
    | inr new ↦ elim (Option-cases (add_to_result_keys "" l c "" "indirect").1) [
      | inr (x, failing) ↦ absurd (ground arith)
      | inl good ↦
          let l1 = (add_to_result_keys "" l c "" "indirect").0 in
          let step : add_nodes "" l (c ∷ cs) ≡ add_nodes "" l1 cs = ground arith in
          subst (λ (r : Listing Cid × Option LsError). IsSent r.0) (sym step)
            (add_nodes-IsSent l1 cs (add_to_result_keys-IsSent l c "" "indirect" all good)
              (rw step at fine))
    ]
  ]

  pub walk_roots-IsSent :
      (walk : List Cid → Cid → List Cid × Option String) (l : Listing Cid) (walked roots : List Cid)
      → IsSent l
      → (walk_roots "" walk l walked roots).1 ≡ none
      → IsSent (walk_roots "" walk l walked roots).0
  unfolding walk_roots
  walk_roots-IsSent walk l walked [] all fine = all
  walk_roots-IsSent walk l walked (k ∷ ks) all fine =
      let (nodes, walk_error) = walk walked k in
      elim (Option-cases walk_error) [
        | inr (x, failing) ↦ absurd (ground arith)
        | inl quiet ↦ elim (Option-cases (add_nodes "" l nodes).1) [
          | inr (x, failing) ↦ absurd (ground arith)
          | inl good ↦
              let l1 = (add_nodes "" l nodes).0 in
              let step : walk_roots "" walk l walked (k ∷ ks)
                  ≡ walk_roots "" walk l1 (nodes ++ walked) ks =
                ground arith in
              subst (λ (r : Listing Cid × Option LsError). IsSent r.0) (sym step)
                (walk_roots-IsSent walk l1 (nodes ++ walked) ks (add_nodes-IsSent l nodes all good)
                  (rw step at fine))
        ]
      ]
