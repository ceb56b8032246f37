-- ===== src/Pins/Locking.antt =====
-- kubo-master/core/coreapi/pin.go: the pin sets are changed under the lock, and flushed.
use bock_ipfs.Base.Results.{Result, ok, err}
use bock_ipfs.Base.{
  Option-cases, String, ◌≡◌, refl, inl, inr, Bool, true, false, Option, none, List, [], ◌∷◌, arith,
}
use bock_ipfs.Pins.Changing.{
  PinCall, pin_lock, pin_unlock, pin, unpin, update_pin, provide, flush, then_call, add, rm, update,
}

-- Calls keep to the lock: it is taken when it is free and given back when it is held, every other
-- call is made under it, and at the end it is free.
abbrev pub IsGuarded : {Cid : Type 0} → Bool → List (PinCall Cid) → Type 0
IsGuarded held [] = held ≡ false
IsGuarded held (pin_lock ∷ cs) = (held ≡ false) × IsGuarded true cs
IsGuarded held (pin_unlock ∷ cs) = (held ≡ true) × IsGuarded false cs
IsGuarded held (pin c r n ∷ cs) = (held ≡ true) × IsGuarded held cs
IsGuarded held (unpin c r ∷ cs) = (held ≡ true) × IsGuarded held cs
IsGuarded held (update_pin c d u ∷ cs) = (held ≡ true) × IsGuarded held cs
IsGuarded held (provide c ∷ cs) = (held ≡ true) × IsGuarded held cs
IsGuarded held (flush ∷ cs) = (held ≡ true) × IsGuarded held cs

module _ {Cid : Type 0} (answer : PinCall Cid → Option String) where
  add_lem :
      (node : Result String Cid) (settings : Result String (Bool × String))
      → IsGuarded false (add answer node settings).0
        × ((add answer node settings).1 ≡ none
            → (c : Cid) × (recursive : Bool) × (name : String) × (node ≡ ok c)
              × (settings ≡ ok (recursive, name))
              × ((add answer node settings).0
                  ≡ pin_lock ∷ pin c recursive name ∷ provide c ∷ flush ∷ pin_unlock ∷ []))
  unfolding add then_call
  add_lem (err x) settings = (refl, λ e. cc)
  add_lem (ok c) (err x) = (refl, λ e. cc)
  add_lem (ok c) (ok (recursive, name)) = (
    elim (Option-cases (answer (pin c recursive name))) [
      | inr (x, bad) ↦ ground arith
      | inl pinned ↦ elim (Option-cases (answer (provide c))) [
        | inr (x, bad) ↦ ground arith
        | inl provided ↦ ground arith
      ]
    ],
    λ e. (c, recursive, name, refl, refl, ground arith),
  )

  rm_lem :
      (node : Result String Cid) (option : Result String Bool)
      → IsGuarded false (rm answer node option).0
        × ((rm answer node option).1 ≡ none
            → (c : Cid) × (recursive : Bool) × (node ≡ ok c)
              × (option ≡ ok recursive)
              × ((rm answer node option).0
                  ≡ pin_lock ∷ unpin c recursive ∷ flush ∷ pin_unlock ∷ []))
  unfolding rm then_call
  rm_lem (err x) option = (refl, λ e. cc)
  rm_lem (ok c) (err x) = (refl, λ e. cc)
  rm_lem (ok c) (ok recursive) = (ground arith, λ e. (c, recursive, refl, refl, ground arith))

  update_lem :
      (option : Result String Bool) (node to : Result String Cid)
      → IsGuarded false (update answer option node to).0
        × ((update answer option node to).1 ≡ none
            → (c : Cid) × (d : Cid) × (unpinned : Bool) × (node ≡ ok c)
              × (to ≡ ok d)
              × (option ≡ ok unpinned)
              × ((update answer option node to).0
                  ≡ pin_lock ∷ update_pin c d unpinned ∷ flush ∷ pin_unlock ∷ []))
  unfolding update then_call
  update_lem (err x) node to = (refl, λ e. cc)
  update_lem (ok u) (err x) to = (refl, λ e. cc)
  update_lem (ok u) (ok c) (err x) = (refl, λ e. cc)
  update_lem (ok u) (ok c) (ok d) = (ground arith, λ e. (c, d, u, refl, refl, refl, ground arith))

  -- `Add`, `Rm` and `Update` change and flush the pin sets only while they hold the lock, give it
  -- back whatever fails, and without an error have made exactly their change, and for `Add` the
  -- announcement, and then the flush.
  pub changes_lem :
      (node to : Result String Cid) (settings : Result String (Bool × String))
      (option : Result String Bool)
      → (IsGuarded false (add answer node settings).0
          × ((add answer node settings).1 ≡ none
              → (c : Cid) × (recursive : Bool) × (name : String) × (node ≡ ok c)
                × (settings ≡ ok (recursive, name))
                × ((add answer node settings).0
                    ≡ pin_lock ∷ pin c recursive name ∷ provide c ∷ flush ∷ pin_unlock ∷ [])))
        × (IsGuarded false (rm answer node option).0
            × ((rm answer node option).1 ≡ none
                → (c : Cid) × (recursive : Bool) × (node ≡ ok c)
                  × (option ≡ ok recursive)
                  × ((rm answer node option).0
                      ≡ pin_lock ∷ unpin c recursive ∷ flush ∷ pin_unlock ∷ [])))
        × (IsGuarded false (update answer option node to).0
            × ((update answer option node to).1 ≡ none
                → (c : Cid) × (d : Cid) × (unpinned : Bool) × (node ≡ ok c)
                  × (to ≡ ok d)
                  × (option ≡ ok unpinned)
                  × ((update answer option node to).0
                      ≡ pin_lock ∷ update_pin c d unpinned ∷ flush ∷ pin_unlock ∷ [])))
  changes_lem node to settings option =
      (add_lem node settings, rm_lem node option, update_lem option node to)
