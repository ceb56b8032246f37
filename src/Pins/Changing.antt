-- ===== src/Pins/Changing.antt =====
-- kubo-master/core/coreapi/pin.go: `Add`, `Rm`, `Update` and `IsPinned`, and the lock that keeps the
-- garbage collector away.
use bock_ipfs.Base.Results.{Result, ok, err}
use bock_ipfs.Base.{String, Bool, Option, none, some, List, [], ◌∷◌, ◌++◌}

-- What the pin API asks of the node, in order.
pub data PinCall (Cid : Type 0) : Type 0 where
  pin_lock : PinCall Cid
  pin_unlock : PinCall Cid
  pin : Cid → (recursive : Bool) → (name : String) → PinCall Cid
  unpin : Cid → (recursive : Bool) → PinCall Cid
  update_pin : Cid → Cid → (unpin : Bool) → PinCall Cid
  provide : Cid → PinCall Cid
  flush : PinCall Cid

pub data PinError : Type 0 where
  pin_failed : String → PinError
  failed : String → PinError
  invalid_type : String → PinError

-- the calls that were made, and the error
abbrev pub Run : Type 0 → Type 0
Run Cid = List (PinCall Cid) × Option PinError

-- `defer api.blockstore.PinLock(ctx).Unlock(ctx)`: the lock is taken at once and given back at the
-- end, whatever happens
unfoldable pub locked : {Cid : Type 0} → Run Cid → Run Cid
locked (calls, e) = (pin_lock ∷ calls ++ pin_unlock ∷ [], e)

module _ {Cid : Type 0} (answer : PinCall Cid → Option String) where
  -- a call, and what comes after it unless it fails
  unfoldable pub then_call : PinCall Cid → (String → PinError) → Run Cid → Run Cid
  then_call c wrap (calls, e) = elim (answer c) [
    | some x ↦ (c ∷ [], some (wrap x))
    | none ↦ (c ∷ calls, e)
  ]

  -- `Add`, by the node that the path resolves to and the settings of the options
  unfoldable pub add : Result String Cid → Result String (Bool × String) → Run Cid
  unfolding locked
  add (err x) settings = ([], some (pin_failed x))
  add (ok node) (err x) = ([], some (failed x))
  add (ok node) (ok (recursive, name)) = locked (
      then_call (pin node recursive name) pin_failed
        (then_call (provide node) failed (then_call flush failed ([], none))))

  -- `Rm`
  unfoldable pub rm : Result String Cid → Result String Bool → Run Cid
  unfolding locked
  rm (err x) settings = ([], some (failed x))
  rm (ok root) (err x) = ([], some (failed x))
  rm (ok root) (ok recursive) =
      locked (then_call (unpin root recursive) failed (then_call flush failed ([], none)))

  -- `Update`
  unfoldable pub update : Result String Bool → Result String Cid → Result String Cid → Run Cid
  unfolding locked
  update (err x) from to = ([], some (failed x))
  update (ok unpin_old) (err x) to = ([], some (failed x))
  update (ok unpin_old) (ok from) (err x) = ([], some (failed x))
  update (ok unpin_old) (ok from) (ok to) =
      locked (then_call (update_pin from to unpin_old) failed (then_call flush failed ([], none)))

-- `IsPinned`, with the pinner's names of the modes and its test
unfoldable pub is_pinned :
    {Cid Mode : Type 0}
    → (String → Option Mode)
    → (Cid → Mode → Result String (String × Bool))
    → Result String Cid
    → Result String String
    → Result PinError (String × Bool)
is_pinned string_to_mode is_pinned_with_type (err x) settings = err (failed x)
is_pinned string_to_mode is_pinned_with_type (ok root) (err x) = err (failed x)
is_pinned string_to_mode is_pinned_with_type (ok root) (ok with_type) =
    elim (string_to_mode with_type) [
      | none ↦ err (invalid_type with_type)
      | some mode ↦ elim (is_pinned_with_type root mode) [ err x ↦ err (failed x) | ok r ↦ ok r ]
    ]
