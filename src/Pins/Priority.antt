-- ===== src/Pins/Priority.antt =====
-- kubo-master/core/coreapi/pin.go: what `pinLsAll` sends when all types are asked for.
use bock_ipfs.Base.{
  Bool-cases, Eq, All, contains, beq_refl, All-contains, In, All-map, String, ◌≡◌, refl, sym, subst,
  ◌⊎◌, inl, inr, Bool, true, false, Option, none, some, List, [], ◌∷◌, arith,
}
use bock_ipfs.Pins.Listing.{
  PinInfo, Streamed, Listing, add_stream, walk_roots, Stage, then_stage, keeping, recursive_stage,
  direct_stage, indirect_stage, walk_stage, pin_ls_all,
}
use bock_ipfs.Pins.Listed.{Distinct, IsClean}
use bock_ipfs.Pins.Streams.{keys_of, Covers, Covers-Grows, Outcome, add_stream_lem, walk_roots_lem}
use bock_ipfs.Pins.Sending.{sent, IsSent, add_stream-IsSent, walk_roots-IsSent}

abbrev nothing_yet : {Cid : Type 0} → List Bool → Listing Cid
nothing_yet sends = record { emitted = []; out = []; sends = sends }

module _ {Cid : Type 0} ⦃e : Eq Cid⦄ where
  -- The type of a pin that is listed: recursive before direct before indirect.
  abbrev pub IsTyped : List Cid → List Cid → PinInfo Cid → Type 0
  IsTyped recursive direct p =
      ((p.pin_type ≡ "recursive") × (contains recursive p.cid ≡ true))
      ⊎ ((p.pin_type ≡ "direct")
          × (contains direct p.cid ≡ true)
          × (contains recursive p.cid ≡ false))
      ⊎ ((p.pin_type ≡ "indirect")
          × (contains recursive p.cid ≡ false)
          × (contains direct p.cid ≡ false))

  In-contains : (c : Cid) (cs : List Cid) → In c cs → contains cs c ≡ true
  In-contains c [] m = absurd m
  In-contains c (d ∷ ds) (inl same) = ground (arith, beq_refl c, same)
  In-contains c (d ∷ ds) (inr m) = ground (arith, In-contains c ds m)

  -- what is not marked is none of the keys that are
  Covers-absent :
      (l : Listing Cid) (cs : List Cid) (c : Cid)
      → Covers l cs
      → contains l.emitted c ≡ false
      → contains cs c ≡ false
  Covers-absent l cs c all absent = elim (Bool-cases (contains cs c)) [
    | inr other ↦ other
    | inl there ↦
        absurd (ground (arith, All-contains (λ d. contains l.emitted d ≡ true) cs c all there))
  ]

module _ {Cid : Type 0} ⦃e : Eq Cid⦄ (filter : String)
    (walk : List Cid → Cid → List Cid × Option String)
    (recursive direct : List (Streamed Cid)) where
  -- What is sent has no CID twice, and its types follow the priority; without an error all keys of
  -- both streams are marked.
  abbrev Sorted : Stage Cid → Type 0
  Sorted (l, keys, failure) =
      IsClean (IsTyped (keys_of recursive) (keys_of direct)) l
      × (failure ≡ none → Covers l (keys_of recursive) × Covers l (keys_of direct))

  walk_stage-Sorted :
      (l : Listing Cid) (keys : List Cid)
      → Sorted (l, keys, none)
      → Sorted (walk_stage filter walk true l keys)
  unfolding walk_stage
  walk_stage-Sorted l [] h = h
  walk_stage-Sorted l (k ∷ ks) h =
      let covered = h.1 refl in
      let r =
        walk_roots_lem (IsTyped (keys_of recursive) (keys_of direct)) filter l walk l [] (k ∷ ks)
          (λ c there. there) h.0
          (λ c absent. inr (
            inr (
              refl,
              Covers-absent l (keys_of recursive) c covered.0 absent,
              Covers-absent l (keys_of direct) c covered.1 absent,
            ))) in
      let l' = (walk_roots filter walk l [] (k ∷ ks)).0 in
      (
        r.0,
        λ fine. (
          Covers-Grows l l' (keys_of recursive) r.1 covered.0,
          Covers-Grows l l' (keys_of direct) r.1 covered.1,
        ),
      )

  -- what follows the direct pins
  abbrev last_stages : Stage Cid → Stage Cid
  last_stages stage = then_stage stage λ l2 keys2.
      then_stage (indirect_stage filter false recursive direct l2 keys2)
        λ l3 keys3. walk_stage filter walk true l3 keys3

  last_stages-Sorted :
      (l1 : Listing Cid) (keys : List Cid) (r : Stage Cid)
      → Covers l1 (keys_of recursive)
      → Outcome (IsTyped (keys_of recursive) (keys_of direct)) l1 direct r
      → Sorted (last_stages (keeping keys r))
  unfolding then_stage keeping indirect_stage
  last_stages-Sorted l1 keys (l2, ignored, some x) covered h = (h.0, λ fine. cc)
  last_stages-Sorted l1 keys (l2, ignored, none) covered h =
      walk_stage-Sorted l2 keys
        (h.0, λ fine. (Covers-Grows l1 l2 (keys_of recursive) h.1 covered, h.2 refl))

  -- what follows the recursive pins
  abbrev later_stages : Stage Cid → Stage Cid
  later_stages stage =
      then_stage stage λ l1 keys1. last_stages (direct_stage filter true direct l1 keys1)

  later_stages-Sorted :
      (l0 : Listing Cid) (r : Stage Cid)
      → Outcome (IsTyped (keys_of recursive) (keys_of direct)) l0 recursive r
      → Sorted (later_stages r)
  unfolding then_stage direct_stage
  later_stages-Sorted l0 (l1, keys, some x) h = (h.0, λ fine. cc)
  later_stages-Sorted l0 (l1, keys, none) h =
      last_stages-Sorted l1 keys (add_stream filter l1 "direct" [] direct) (h.2 refl) (
        add_stream_lem (IsTyped (keys_of recursive) (keys_of direct)) filter l1 l1 "direct" []
          direct (λ c there. there) h.0
          (λ c name m absent. inr (
            inl (
              refl,
              In-contains c (keys_of direct) m,
              Covers-absent l1 (keys_of recursive) c (h.2 refl) absent,
            ))))

  pin_ls_all-Sorted :
      (sends : List Bool) → Sorted (pin_ls_all filter walk recursive direct "all" sends)
  unfolding pin_ls_all recursive_stage
  pin_ls_all-Sorted sends =
      let l0 = nothing_yet sends in
      later_stages-Sorted l0 (add_stream filter l0 "recursive" [] recursive) (
        add_stream_lem (IsTyped (keys_of recursive) (keys_of direct)) filter l0 l0 "recursive" []
          recursive (λ c there. there) (record { marked = tt; distinct = tt; each = tt })
          (λ c name m absent. inl (refl, In-contains c (keys_of recursive) m)))

module _ {Cid : Type 0} ⦃e : Eq Cid⦄ (walk : List Cid → Cid → List Cid × Option String)
    (recursive direct : List (Streamed Cid)) where
  abbrev SentAll : Stage Cid → Type 0
  SentAll (l, keys, failure) = failure ≡ none → IsSent l

  walk_stage-SentAll :
      (l : Listing Cid) (keys : List Cid) → IsSent l → SentAll (walk_stage "" walk true l keys)
  unfolding walk_stage
  walk_stage-SentAll l [] all fine = all
  walk_stage-SentAll l (k ∷ ks) all fine = walk_roots-IsSent walk l [] (k ∷ ks) all fine

  last_stages-SentAll :
      (keys : List Cid) (r : Stage Cid)
      → SentAll r
      → SentAll (last_stages "" walk recursive direct (keeping keys r))
  unfolding then_stage keeping indirect_stage
  last_stages-SentAll keys (l2, ignored, some x) h = λ fine. cc
  last_stages-SentAll keys (l2, ignored, none) h = walk_stage-SentAll l2 keys (h refl)

  later_stages-SentAll :
      (r : Stage Cid) → SentAll r → SentAll (later_stages "" walk recursive direct r)
  unfolding then_stage direct_stage
  later_stages-SentAll (l1, keys, some x) h = λ fine. cc
  later_stages-SentAll (l1, keys, none) h =
      last_stages-SentAll keys (add_stream "" l1 "direct" [] direct)
        (add_stream-IsSent l1 "direct" [] direct (h refl))

  pin_ls_all-SentAll :
      (sends : List Bool) → SentAll (pin_ls_all "" walk recursive direct "all" sends)
  unfolding pin_ls_all recursive_stage
  pin_ls_all-SentAll sends =
      later_stages-SentAll (add_stream "" (nothing_yet sends) "recursive" [] recursive)
        (add_stream-IsSent (nothing_yet sends) "recursive" [] recursive (λ c there. cc))

module _ {Cid : Type 0} ⦃e : Eq Cid⦄ (filter : String)
    (walk : List Cid → Cid → List Cid × Option String)
    (recursive direct : List (Streamed Cid)) where
  -- Of all types of pins `pinLsAll` sends no CID twice, also when it ends with an error, and the
  -- type of each is recursive if it is a recursive key, else direct if it is a direct key, else
  -- indirect. If it ends without an error and no name is asked for, every recursive and direct key
  -- was sent.
  pub pin_ls_all_lem :
      (sends : List Bool)
      → let (l, keys, failure) = pin_ls_all filter walk recursive direct "all" sends in
        Distinct l.out
        × All (IsTyped (keys_of recursive) (keys_of direct)) l.out
        × (failure ≡ none
            → filter ≡ ""
            → All (λ c. contains (sent l) c ≡ true) (keys_of recursive)
              × All (λ c. contains (sent l) c ≡ true) (keys_of direct))
  pin_ls_all_lem sends =
      let (clean, covered) = pin_ls_all-Sorted filter walk recursive direct sends in
      (
        clean.distinct,
        clean.each,
        λ fine plain.
            let all =
              subst
                (λ f.
                  SentAll walk recursive direct (pin_ls_all f walk recursive direct "all" sends))
                (sym plain) (pin_ls_all-SentAll walk recursive direct sends) fine in
            let l = (pin_ls_all filter walk recursive direct "all" sends).0 in
            let every =
              All-map (λ (c : Cid). contains l.emitted c ≡ true) (λ c. contains (sent l) c ≡ true)
                all in
            (every (keys_of recursive) (covered fine).0, every (keys_of direct) (covered fine).1),
      )
