-- ===== src/Pins/Listing.antt =====
-- kubo-master/core/coreapi/pin.go: `Ls` and `pinLsAll`, which sends the pins of the asked types.
use bock_ipfs.Base.Results.{Result, ok, err}
use bock_ipfs.Base.{
  ◌==◌, str_eq, if◌then◌else◌, Eq, contains, String, Bool, true, false, ◌||◌, Option, none, some,
  List, [], ◌∷◌, ◌++◌,
}
use Prim.Native.Char.{code}

-- `type pinInfo`
pub record PinInfo (Cid : Type 0) : Type 0 where
  pub pin_type : String
  pub cid : Cid
  pub name : String

-- What the pinner streams: a pin with its name, or an error.
abbrev pub Streamed : Type 0 → Type 0
Streamed Cid = Result String (Cid × String)

pub data LsError : Type 0 where
  invalid_type : String → LsError
  stream_failed : String → LsError
  context_done : LsError
  walk_failed : String → LsError

-- The state of `pinLsAll`: what was emitted, what was sent, the first first, and of each further
-- send whether it is received before the context is done.
pub record Listing (Cid : Type 0) : Type 0 where
  pub emitted : List Cid
  pub out : List (PinInfo Cid)
  pub sends : List Bool

-- `strings.HasPrefix(t, p)`
unfoldable pub has_prefix : String → String → Bool
has_prefix t String.[] = true
has_prefix String.[] (String.◌∷◌ c p) = false
has_prefix (String.◌∷◌ d t) (String.◌∷◌ c p) =
    let rest = has_prefix t p in if code d == code c then rest else false

-- `strings.Contains(t, p)`
unfoldable pub contains_text : String → String → Bool
unfolding has_prefix
contains_text String.[] p = has_prefix String.[] p
contains_text (String.◌∷◌ c t) p =
    let rest = contains_text t p in if has_prefix (String.◌∷◌ c t) p then true else rest

-- the select of `AddToResultKeys`, by whether the send is received
unfoldable pub send_on :
    {Cid : Type 0} → Listing Cid → PinInfo Cid → List Bool → Listing Cid × Option LsError
send_on l p [] = (l, some context_done)
send_on l p (true ∷ rest) = (record l { out = l.out ++ p ∷ []; sends = rest }, none)
send_on l p (false ∷ rest) = (record l { sends = rest }, some context_done)

unfoldable pub send : {Cid : Type 0} → Listing Cid → PinInfo Cid → Listing Cid × Option LsError
unfolding send_on
send l p = send_on l p l.sends

-- the loop over a stream of pins that are only marked as emitted
unfoldable pub mark_stream :
    {Cid : Type 0}
    → Listing Cid
    → List Cid
    → List (Streamed Cid)
    → Listing Cid × List Cid × Option LsError
mark_stream l keys [] = (l, keys, none)
mark_stream l keys (err x ∷ pins) = (l, keys, some (stream_failed x))
mark_stream l keys (ok (c, pin_name) ∷ pins) =
    mark_stream (record l { emitted = c ∷ l.emitted }) (keys ++ c ∷ []) pins

module _ {Cid : Type 0} ⦃e : Eq Cid⦄ (filter : String) where
  -- `AddToResultKeys`, with the name that the caller asks for
  unfoldable pub add_to_result_keys :
      Listing Cid → Cid → String → String → Listing Cid × Option LsError
  add_to_result_keys l c pin_name type_str =
      if contains l.emitted c
      then (l, none)
      else if str_eq filter "" || contains_text pin_name filter
      then send (record l { emitted = c ∷ l.emitted })
          (record { pin_type = type_str; cid = c; name = pin_name })
      else (record l { emitted = c ∷ l.emitted }, none)

  -- the loop over a stream of pins that are sent, with the keys that came before
  unfoldable pub add_stream :
      Listing Cid
      → String
      → List Cid
      → List (Streamed Cid)
      → Listing Cid × List Cid × Option LsError
  add_stream l type_str keys [] = (l, keys, none)
  add_stream l type_str keys (err x ∷ pins) = (l, keys, some (stream_failed x))
  add_stream l type_str keys (ok (c, pin_name) ∷ pins) =
      let (l', failure) = add_to_result_keys l c pin_name type_str in
      elim failure [
        | some x ↦ (l', keys, some x)
        | none ↦ add_stream l' type_str (keys ++ c ∷ []) pins
      ]

  -- what the callback of the walk does at the nodes that are new to the walks
  unfoldable pub add_nodes : Listing Cid → List Cid → Listing Cid × Option LsError
  add_nodes l [] = (l, none)
  add_nodes l (c ∷ cs) = elim (contains l.emitted c) [
    | true ↦ add_nodes l cs
    | false ↦
        let (l', failure) = add_to_result_keys l c "" "indirect" in
        elim failure [ some x ↦ (l', some x) | none ↦ add_nodes l' cs ]
  ]

  -- the walks from the recursive pins; `walk` says, for the nodes that were walked before, which
  -- nodes below a root are new, in the order of the walk, and its error
  unfoldable pub walk_roots :
      (List Cid → Cid → List Cid × Option String)
      → Listing Cid
      → List Cid
      → List Cid
      → Listing Cid × Option LsError
  walk_roots walk l walked [] = (l, none)
  walk_roots walk l walked (k ∷ ks) =
      let (nodes, walk_error) = walk walked k in
      let (l', failure) = add_nodes l nodes in
      elim walk_error [
        | some x ↦ (l', some (walk_failed x))
        | none ↦ elim failure [
          | some x ↦ (l', some x)
          | none ↦ walk_roots walk l' (nodes ++ walked) ks
        ]
      ]

-- What a stage of `pinLsAll` leaves: the listing, the recursive keys and the error.
abbrev pub Stage : Type 0 → Type 0
Stage Cid = Listing Cid × List Cid × Option LsError

-- The next stage follows unless there was an error.
unfoldable pub then_stage :
    {Cid : Type 0} → Stage Cid → (Listing Cid → List Cid → Stage Cid) → Stage Cid
then_stage (l, keys, some x) next = (l, keys, some x)
then_stage (l, keys, none) next = next l keys

-- a loop that is not over the recursive pins leaves their keys
unfoldable pub keeping : {Cid : Type 0} → List Cid → Stage Cid → Stage Cid
keeping keys (l, ignored, failure) = (l, keys, failure)

module _ {Cid : Type 0} ⦃e : Eq Cid⦄ (filter : String) where
  unfoldable pub recursive_stage : Bool → List (Streamed Cid) → Listing Cid → Stage Cid
  recursive_stage true recursive l = add_stream filter l "recursive" [] recursive
  recursive_stage false recursive l = (l, [], none)

  unfoldable pub direct_stage : Bool → List (Streamed Cid) → Listing Cid → List Cid → Stage Cid
  direct_stage true direct l keys = keeping keys (add_stream filter l "direct" [] direct)
  direct_stage false direct l keys = (l, keys, none)

  -- the direct pins have priority and are marked first
  unfoldable pub indirect_stage :
      Bool → List (Streamed Cid) → List (Streamed Cid) → Listing Cid → List Cid → Stage Cid
  indirect_stage true recursive direct l keys =
      then_stage (keeping keys (mark_stream l [] direct)) λ l' keys'. mark_stream l' keys' recursive
  indirect_stage false recursive direct l keys = (l, keys, none)

  unfoldable pub walk_stage :
      (List Cid → Cid → List Cid × Option String) → Bool → Listing Cid → List Cid → Stage Cid
  walk_stage walk false l keys = (l, keys, none)
  walk_stage walk true l [] = (l, [], none)
  walk_stage walk true l (k ∷ ks) =
      let (l', failure) = walk_roots filter walk l [] (k ∷ ks) in (l', k ∷ ks, failure)

  -- `pinLsAll`, by the asked type
  unfoldable pub pin_ls_all :
      (List Cid → Cid → List Cid × Option String)
      → List (Streamed Cid)
      → List (Streamed Cid)
      → String
      → List Bool
      → Stage Cid
  pin_ls_all walk recursive direct type_str sends =
      let all = str_eq type_str "all" in
      let indirect = str_eq type_str "indirect" in
      then_stage
        (recursive_stage (str_eq type_str "recursive" || all) recursive
          (record { emitted = []; out = []; sends = sends }))
        λ l1 keys1.
          then_stage (direct_stage (str_eq type_str "direct" || all) direct l1 keys1) λ l2 keys2.
            then_stage (indirect_stage indirect recursive direct l2 keys2)
              λ l3 keys3. walk_stage walk (indirect || all) l3 keys3

  -- `Ls`
  unfoldable pub ls :
      (List Cid → Cid → List Cid × Option String)
      → List (Streamed Cid)
      → List (Streamed Cid)
      → String
      → List Bool
      → List (PinInfo Cid) × Option LsError
  ls walk recursive direct type_str sends =
      if str_eq type_str "all"
        || str_eq type_str "direct"
        || str_eq type_str "indirect"
        || str_eq type_str "recursive"
      then (let (l, keys, failure) = pin_ls_all walk recursive direct type_str sends in
          (l.out, failure))
      else ([], some (invalid_type type_str))
