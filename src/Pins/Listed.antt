-- ===== src/Pins/Listed.antt =====
-- kubo-master/core/coreapi/pin.go: what one step of `pinLsAll` leaves: every pin is sent once.
use bock_ipfs.Base.{
  str_eq, Bool-cases, Eq, All, All-append, contains, beq_refl, All-map, String, ◌≡◌, refl, inl, inr,
  Bool, true, false, ◌||◌, List, [], ◌∷◌, ◌++◌, arith,
}
use bock_ipfs.Pins.Listing.{PinInfo, Listing, contains_text, send_on, send, add_to_result_keys}

module _ {Cid : Type 0} ⦃e : Eq Cid⦄ where
  -- No CID is listed twice.
  abbrev pub Distinct : List (PinInfo Cid) → Type 0
  Distinct [] = Unit {0}
  Distinct (p ∷ ps) = All (λ q. e.beq p.cid q.cid ≡ false) ps × Distinct ps

  Distinct-append :
      (ps : List (PinInfo Cid)) (p : PinInfo Cid)
      → Distinct ps
      → All (λ q. e.beq q.cid p.cid ≡ false) ps
      → Distinct (ps ++ p ∷ [])
  Distinct-append [] p d new = (tt, tt)
  Distinct-append (q ∷ ps) p d new = (
    All-append (λ r. e.beq q.cid r.cid ≡ false) ps (p ∷ []) d.0 (new.0, tt),
    Distinct-append ps p d.1 new.1,
  )

  -- everything that is emitted stays so
  abbrev pub Grows : Listing Cid → Listing Cid → Type 0
  Grows l l' = (c : Cid) → contains l.emitted c ≡ true → contains l'.emitted c ≡ true

  -- what was not emitted later was not before
  pub Grows-absent :
      (l l' : Listing Cid) (c : Cid)
      → Grows l l'
      → contains l'.emitted c ≡ false
      → contains l.emitted c ≡ false
  Grows-absent l l' c g h = elim (Bool-cases (contains l.emitted c)) [
    | inr absent ↦ absent
    | inl there ↦ absurd (ground (arith, g c there))
  ]

module _ {Cid : Type 0} ⦃e : Eq Cid⦄ (P : PinInfo Cid → Type 0) where
  -- What was sent is marked as emitted, has no CID twice and has a property.
  pub record IsClean (l : Listing Cid) : Type 0 where
    pub marked : All (λ p. contains l.emitted p.cid ≡ true) l.out
    pub distinct : Distinct l.out
    pub each : All P l.out

  unseen :
      (l : Listing Cid) (c : Cid)
      → IsClean l
      → contains l.emitted c ≡ false
      → All (λ q. e.beq q.cid c ≡ false) l.out
  unseen l c clean absent =
      All-map (λ (p : PinInfo Cid). contains l.emitted p.cid ≡ true) (λ q. e.beq q.cid c ≡ false)
        (λ p there. elim (Bool-cases (e.beq p.cid c)) [
          | inr other ↦ other
          | inl same ↦ absurd (ground (arith, (e.beq_iff p.cid c).0 same, there, absent))
        ])
        l.out clean.marked

  send_on-IsClean :
      (l : Listing Cid) (p : PinInfo Cid) (sends : List Bool)
      → IsClean l
      → contains l.emitted p.cid ≡ false
      → P p
      → IsClean (send_on (record l { emitted = p.cid ∷ l.emitted }) p sends).0
  unfolding send_on
  send_on-IsClean l p sends clean absent h = cases sends
    where
      still : All (λ q. contains (p.cid ∷ l.emitted) q.cid ≡ true) l.out
      still =
          All-map (λ (q : PinInfo Cid). contains l.emitted q.cid ≡ true)
            (λ q. contains (p.cid ∷ l.emitted) q.cid ≡ true) (λ q there. ground arith) l.out
            clean.marked

      cases :
          (sends : List Bool)
          → IsClean (send_on (record l { emitted = p.cid ∷ l.emitted }) p sends).0
      cases [] = record { marked = still; distinct = clean.distinct; each = clean.each }
      cases (false ∷ rest) = record { marked = still; distinct = clean.distinct; each = clean.each }
      cases (true ∷ rest) = record {
        marked =
            All-append (λ q. contains (p.cid ∷ l.emitted) q.cid ≡ true) l.out (p ∷ []) still
              (ground (arith, beq_refl p.cid), tt);
        distinct = Distinct-append l.out p clean.distinct (unseen l p.cid clean absent);
        each = All-append P l.out (p ∷ []) clean.each (h, tt);
      }

  -- `AddToResultKeys` of a CID that has the property if it is new
  pub add_to_result_keys-IsClean :
      (filter : String) (l : Listing Cid) (c : Cid) (name type_str : String)
      → IsClean l
      → (contains l.emitted c ≡ false → P (record { pin_type = type_str; cid = c; name = name }))
      → IsClean (add_to_result_keys filter l c name type_str).0
  unfolding add_to_result_keys send
  add_to_result_keys-IsClean filter l c name type_str clean h =
      elim (Bool-cases (contains l.emitted c)) [
        | inl old ↦ rw (old, add_to_result_keys) clean
        | inr new ↦ elim (Bool-cases (str_eq filter "" || contains_text name filter)) [
          | inl shown ↦
              rw (new, shown, add_to_result_keys, send)
                (send_on-IsClean l (record { pin_type = type_str; cid = c; name = name }) l.sends
                  clean new (h new))
          | inr hidden ↦
              rw (new, hidden, add_to_result_keys)
                (record {
                  marked =
                      All-map (λ (q : PinInfo Cid). contains l.emitted q.cid ≡ true)
                        (λ q. contains (c ∷ l.emitted) q.cid ≡ true) (λ q there. ground arith) l.out
                        clean.marked;
                  distinct = clean.distinct;
                  each = clean.each;
                })
        ]
      ]

module _ {Cid : Type 0} ⦃e : Eq Cid⦄ (filter : String) where
  send_on-emitted :
      (l : Listing Cid) (p : PinInfo Cid) (sends : List Bool)
      → (send_on l p sends).0.emitted ≡ l.emitted
  unfolding send_on
  send_on-emitted l p [] = refl
  send_on-emitted l p (true ∷ rest) = refl
  send_on-emitted l p (false ∷ rest) = refl

  -- the CID is marked, and all that were
  pub add_to_result_keys-emitted :
      (l : Listing Cid) (c : Cid) (name type_str : String)
      → let (l', failure) = add_to_result_keys filter l c name type_str in
        Grows l l' × (contains l'.emitted c ≡ true)
  unfolding add_to_result_keys send
  add_to_result_keys-emitted l c name type_str =
      let p : PinInfo Cid = record { pin_type = type_str; cid = c; name = name } in
      let same = send_on-emitted (record l { emitted = c ∷ l.emitted }) p l.sends in
      (λ d there. ground (arith, same), ground (arith, same, beq_refl c))
