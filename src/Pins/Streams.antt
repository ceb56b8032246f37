-- ===== src/Pins/Streams.antt =====
-- kubo-master/core/coreapi/pin.go: the loops of `pinLsAll` keep the listing clean.
use bock_ipfs.Base.Results.{ok, err}
use bock_ipfs.Base.{
  Bool-cases, Option-cases, Eq, All, contains, In, All-map, String, ◌≡◌, refl, sym, subst, inl, inr,
  true, false, Option, none, List, [], ◌∷◌, ◌++◌, arith,
}
use bock_ipfs.Pins.Listing.{
  PinInfo, Streamed, LsError, Listing, add_to_result_keys, add_stream, add_nodes, walk_roots,
}
use bock_ipfs.Pins.Listed.{
  Grows, Grows-absent, IsClean, add_to_result_keys-IsClean, add_to_result_keys-emitted,
}

-- the keys of a stream up to its first error
abbrev pub keys_of : {Cid : Type 0} → List (Streamed Cid) → List Cid
keys_of [] = []
keys_of (err x ∷ pins) = []
keys_of (ok (c, name) ∷ pins) = c ∷ keys_of pins

module _ {Cid : Type 0} ⦃e : Eq Cid⦄ where
  -- all of some CIDs are marked
  abbrev pub Covers : Listing Cid → List Cid → Type 0
  Covers l cs = All (λ c. contains l.emitted c ≡ true) cs

  pub Covers-Grows : (l l' : Listing Cid) (cs : List Cid) → Grows l l' → Covers l cs → Covers l' cs
  Covers-Grows l l' cs g h =
      All-map (λ (c : Cid). contains l.emitted c ≡ true) (λ c. contains l'.emitted c ≡ true) g cs h

-- What a loop over a stream leaves: a clean listing, and without an error all keys marked.
abbrev pub Outcome :
    {Cid : Type 0}
    → ⦃e : Eq Cid⦄ → (PinInfo Cid → Type 0)
    → Listing Cid
    → List (Streamed Cid)
    → Listing Cid × List Cid × Option LsError
    → Type 0
Outcome P l pins (l', keys, failure) =
    IsClean P l' × Grows l l' × (failure ≡ none → Covers l' (keys_of pins))

module _ {Cid : Type 0} ⦃e : Eq Cid⦄ (P : PinInfo Cid → Type 0) (filter : String)
    (l0 : Listing Cid) where
  pub add_stream_lem :
      (l : Listing Cid) (type_str : String) (keys : List Cid) (pins : List (Streamed Cid))
      → Grows l0 l
      → IsClean P l
      → ((c : Cid) (name : String)
          → In c (keys_of pins)
          → contains l0.emitted c ≡ false
          → P (record { pin_type = type_str; cid = c; name = name }))
      → Outcome P l pins (add_stream filter l type_str keys pins)
  unfolding add_stream
  add_stream_lem l type_str keys [] g clean h = (clean, λ c there. there, λ fine. tt)
  add_stream_lem l type_str keys (err x ∷ pins) g clean h = (clean, λ c there. there, λ fine. cc)
  add_stream_lem l type_str keys (ok (c, name) ∷ pins) g clean h =
      let one = add_to_result_keys-emitted filter l c name type_str in
      let clean' =
        add_to_result_keys-IsClean P filter l c name type_str clean
          (λ absent. h c name (inl refl) (Grows-absent l0 l c g absent)) in
      elim (Option-cases (add_to_result_keys filter l c name type_str).1) [
        | inr (x, failing) ↦ rw (failing, add_stream) (clean', one.0, λ fine. cc)
        | inl fine ↦
            let l1 = (add_to_result_keys filter l c name type_str).0 in
            let rest =
              add_stream_lem l1 type_str (keys ++ c ∷ []) pins (λ d there. one.0 d (g d there))
                clean' (λ d n m absent. h d n (inr m) absent) in
            let step : add_stream filter l type_str keys (ok (c, name) ∷ pins)
                ≡ add_stream filter l1 type_str (keys ++ c ∷ []) pins =
              ground arith in
            subst (Outcome P l (ok (c, name) ∷ pins)) (sym step)
              (rest.0, λ d there. rest.1 d (one.0 d there), λ good. (rest.1 c one.1, rest.2 good))
      ]

  pub add_nodes_lem :
      (l : Listing Cid) (nodes : List Cid)
      → Grows l0 l
      → IsClean P l
      → ((c : Cid)
          → contains l0.emitted c ≡ false
          → P (record { pin_type = "indirect"; cid = c; name = "" }))
      → let (l', failure) = add_nodes filter l nodes in IsClean P l' × Grows l l'
  unfolding add_nodes
  add_nodes_lem l [] g clean h = (clean, λ c there. there)
  add_nodes_lem l (c ∷ cs) g clean h = elim (Bool-cases (contains l.emitted c)) [
    | inl old ↦ rw (old, add_nodes) (add_nodes_lem l cs g clean h)
    | inr new ↦
        let one = add_to_result_keys-emitted filter l c "" "indirect" in
        let clean' =
          add_to_result_keys-IsClean P filter l c "" "indirect" clean
            (λ absent. h c (Grows-absent l0 l c g absent)) in
        elim (Option-cases (add_to_result_keys filter l c "" "indirect").1) [
          | inr (x, failing) ↦ rw (new, failing, add_nodes) (clean', one.0)
          | inl fine ↦
              let l1 = (add_to_result_keys filter l c "" "indirect").0 in
              let rest = add_nodes_lem l1 cs (λ d there. one.0 d (g d there)) clean' h in
              rw (new, fine, add_nodes) (rest.0, λ d there. rest.1 d (one.0 d there))
        ]
  ]

  pub walk_roots_lem :
      (walk : List Cid → Cid → List Cid × Option String) (l : Listing Cid) (walked roots : List Cid)
      → Grows l0 l
      → IsClean P l
      → ((c : Cid)
          → contains l0.emitted c ≡ false
          → P (record { pin_type = "indirect"; cid = c; name = "" }))
      → let (l', failure) = walk_roots filter walk l walked roots in IsClean P l' × Grows l l'
  unfolding walk_roots
  walk_roots_lem walk l walked [] g clean h = (clean, λ c there. there)
  walk_roots_lem walk l walked (k ∷ ks) g clean h =
      let (nodes, walk_error) = walk walked k in
      let l1 = (add_nodes filter l nodes).0 in
      let one = add_nodes_lem l nodes g clean h in
      elim (Option-cases walk_error) [
        | inr (x, failing) ↦ rw (failing, walk_roots) one
        | inl walked_all ↦ elim (Option-cases (add_nodes filter l nodes).1) [
          | inr (x, failing) ↦ rw (walked_all, failing, walk_roots) one
          | inl fine ↦
              let rest =
                walk_roots_lem walk l1 (nodes ++ walked) ks (λ d there. one.1 d (g d there)) one.0
                  h in
              rw (walked_all, fine, walk_roots) (rest.0, λ d there. rest.1 d (one.1 d there))
        ]
      ]
