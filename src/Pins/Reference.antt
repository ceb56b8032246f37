-- ===== src/Pins/Reference.antt =====
-- kubo-master/core/coreapi/pin.go: what the status of a pin is, without a memory.
use bock_ipfs.Base.Results.{Result, ok, err, Result-cases}
use bock_ipfs.Base.{
  All, In, All-In, ℕ, zero, suc, ◌<◌, String, ◌≡◌, refl, inl, inr, List, [], ◌∷◌, arith,
}
use bock_ipfs.Pins.Verify.{PinStatus, bad_status, good_status, add_child}

module _ {Cid : Type 0} where
  -- the statuses of the links are added, one after the other
  unfoldable pub add_all : (Cid → PinStatus Cid) → PinStatus Cid → List Cid → PinStatus Cid
  add_all of st [] = st
  add_all of st (lnk ∷ links) = add_all of (add_child st (of lnk)) links

  pub add_all_agree :
      (f g : Cid → PinStatus Cid) (st : PinStatus Cid) (links : List Cid)
      → ((c : Cid) → In c links → f c ≡ g c)
      → add_all f st links ≡ add_all g st links
  unfolding add_all
  add_all_agree f g st [] h = refl
  add_all_agree f g st (c ∷ cs) h =
      rw (h c (inl refl)) (add_all_agree f g (add_child st (g c)) cs (λ d m. h d (inr m)))

module _ {Cid : Type 0} (get_links : Cid → Result String (List Cid)) where
  -- the status of a node by its links alone, as deep as `n`
  unfoldable pub status_of : ℕ → Cid → PinStatus Cid
  unfolding add_all
  status_of zero root = good_status root
  status_of (suc n) root = elim (get_links root) [
    | err x ↦ bad_status root x
    | ok links ↦ add_all (λ c. status_of n c) (good_status root) links
  ]

  -- Links lead downwards: content addressing leaves no cycles.
  abbrev pub Descends : (Cid → ℕ) → Type 0
  Descends height =
      (c : Cid) (links : List Cid) → get_links c ≡ ok links → All (λ d. height d < height c) links

module _ {Cid : Type 0} (get_links : Cid → Result String (List Cid)) (height : Cid → ℕ)
    (down : Descends get_links height) where
  -- Deep enough is deep enough.
  pub status_of_stable :
      (n m : ℕ) (c : Cid)
      → height c < n
      → height c < m
      → status_of get_links n c ≡ status_of get_links m c
  unfolding status_of
  status_of_stable zero m c hn hm = absurd (omega arith)
  status_of_stable (suc n) zero c hn hm = absurd (omega arith)
  status_of_stable (suc n) (suc m) c hn hm = elim (Result-cases (get_links c)) [
    | inr (x, bad) ↦ ground arith
    | inl (links, fetched) ↦
        let below = down c links fetched in
        let agree =
          add_all_agree (λ d. status_of get_links n d) (λ d. status_of get_links m d)
            (good_status c) links
            (λ d mem.
              let lt = All-In (λ d. height d < height c) d links below mem in
              status_of_stable n m d (omega arith) (omega arith)) in
        ground (arith, agree)
  ]

-- A node is reached from a root along the links that can be fetched.
pub data Reaches {Cid : Type 0} (get_links : Cid → Result String (List Cid)) (d : Cid)
    : Cid → Type 0 where
  here : Reaches get_links d d
  via :
      {c root : Cid} (links : List Cid)
      → get_links root ≡ ok links
      → In c links
      → Reaches get_links d c
      → Reaches get_links d root
