-- ===== src/Repo/Common.antt =====
-- kubo-master/repo/common/common.go: reading, writing and merging the nested maps of a
-- configuration.
pub mod Keys
pub mod Setting
pub mod Merging
mod Tests
use Prim.Native.Char.{Char, code}
use bock_ipfs.Base.Results.{Result, ok, err}
use bock_ipfs.Repo.Common.Keys.{split, join}
use bock_ipfs.Base.{str_eq, if◌then◌else◌, ◌+++◌, String, Option, none, some, List, [], ◌∷◌, ◌++◌}

-- A value of a configuration: nil, a nested map, or any other value, by its text.
mutual
  pub data Value : Type 0 where
    nil : Value
    leaf : String → Value
    object : Fields → Value

  -- the entries of a Go map
  pub data Fields : Type 0 where
    end : Fields
    field : String → Value → Fields → Fields

-- `m[key]`
unfoldable pub get : String → Fields → Option Value
get k end = none
get k (field j v m) = if str_eq j k then some v else get k m

-- `m[key] = value`
unfoldable pub put : String → Value → Fields → Fields
put k v end = field k v end
put k v (field j w m) = if str_eq j k then field j v m else field j w (put k v m)

pub data KeyError : Type 0 where
  not_a_map : String → KeyError
  not_found : String → KeyError

-- the path in the error of a missing key
path_text : String → String → String
path_text sofar part = if str_eq sofar "" then part else sofar +++ "." +++ part

-- the loop of `MapGetKV`, with the parts before the cursor
unfoldable pub get_loop : List String → Value → List String → Result KeyError Value
unfolding path_text
get_loop sofar cursor [] = ok cursor
get_loop sofar nil (part ∷ parts) = err (not_a_map (join sofar))
get_loop sofar (leaf t) (part ∷ parts) = err (not_a_map (join sofar))
get_loop sofar (object m) (part ∷ parts) = elim (get part m) [
  | none ↦ err (not_found (path_text (join sofar) part))
  | some v ↦ get_loop (sofar ++ part ∷ []) v parts
]

-- `MapGetKV`
unfoldable pub map_get_kv : Fields → String → Result KeyError Value
map_get_kv v key = get_loop [] (object v) (split key)

-- what `MapSetKV` goes on with below a map: a new map if there is nothing, or nil
unfoldable pub child_of : Option Value → Value
child_of none = object end
child_of (some nil) = object end
child_of (some v) = v

-- the loop of `MapSetKV`: the cursor's new content, and the error
unfoldable pub set_loop : List String → Value → List String → Value → Value × Option KeyError
unfolding child_of
set_loop sofar cursor [] value = (cursor, none)
set_loop sofar nil (part ∷ parts) value = (nil, some (not_a_map (join sofar)))
set_loop sofar (leaf t) (part ∷ parts) value = (leaf t, some (not_a_map (join sofar)))
set_loop sofar (object m) (part ∷ []) value = (object (put part value m), none)
set_loop sofar (object m) (part ∷ next ∷ parts) value =
    let (child, e) = set_loop (sofar ++ part ∷ []) (child_of (get part m)) (next ∷ parts) value in
    (object (put part child m), e)

-- the entries of a value that is a map
abbrev pub fields_of : Value → Fields
fields_of (object m) = m
fields_of _ = end

-- `MapSetKV`, which changes the map
unfoldable pub map_set_kv : Fields → String → Value → Fields × Option KeyError
map_set_kv v key value = let (v', e) = set_loop [] (object v) (split key) value in (fields_of v', e)

-- `MapMergeDeep` on a copy of the left map. A map on the right is merged into a map on the left,
-- and any other value takes the place of the left one. Go visits the right map in any order.
unfoldable mutual
  pub merge_value : Option Value → Value → Value
  merge_value (some (object left)) (object right) = object (map_merge_deep left right)
  merge_value old nil = nil
  merge_value old (leaf t) = leaf t
  merge_value none (object right) = object right
  merge_value (some nil) (object right) = object right
  merge_value (some (leaf t)) (object right) = object right

  pub map_merge_deep : Fields → Fields → Fields
  map_merge_deep result end = result
  map_merge_deep result (field key v right) =
      map_merge_deep (put key (merge_value (get key result) v) result) right
