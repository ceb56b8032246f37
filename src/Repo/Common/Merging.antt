-- ===== src/Repo/Common/Merging.antt =====
-- kubo-master/repo/common/common.go: what `MapGetKV` reads in the result of `MapMergeDeep`.
use bock_ipfs.Base.{
  str_eq, Bool-cases, Option-cases, String, ◌≡◌, refl, sym, ap, ◌∙◌, subst, inl, inr, Option, none,
  some, List, [], ◌∷◌, ◌++◌, arith, eq_iff,
}
use bock_ipfs.Base.Results.{ok}
use bock_ipfs.Repo.Common.Keys.{split}
use bock_ipfs.Repo.Common.{
  Value, nil, leaf, object, Fields, end, field, get, put, get_loop, map_get_kv, merge_value,
  map_merge_deep,
}
use bock_ipfs.Repo.Common.Setting.{get-put, value_at, value_at-get_loop}

-- A Go map has every key once, and so have the maps in it.
abbrev mutual
  pub UniqueValue : Value → Type 0
  UniqueValue nil = Unit {0}
  UniqueValue (leaf t) = Unit {0}
  UniqueValue (object m) = Unique m

  pub Unique : Fields → Type 0
  Unique end = Unit {0}
  Unique (field k v m) = (get k m ≡ none) × UniqueValue v × Unique m

-- the entry of a merged map, by the entries of the two
abbrev pub merged : Option Value → Option Value → Option Value
merged old none = old
merged old (some v) = some (merge_value old v)

get-map_merge_deep :
    (k : String) (left right : Fields)
    → Unique right
    → get k (map_merge_deep left right) ≡ merged (get k left) (get k right)
unfolding map_merge_deep get
get-map_merge_deep k left end u = refl
get-map_merge_deep k left (field j v right) u =
    let new = merge_value (get j left) v in
    ground
      (arith, eq_iff j k, get-put k j new left, get-map_merge_deep k (put j new left) right u.2)

Unique-get : (k : String) (m : Fields) (v : Value) → Unique m → get k m ≡ some v → UniqueValue v
unfolding get
Unique-get k end v u h = cc
Unique-get k (field j w m) v u h = elim (Bool-cases (str_eq j k)) [
  | inl same ↦ subst UniqueValue (ground (arith, same)) u.1
  | inr other ↦ Unique-get k m v u.2 (ground arith)
]

-- a value that is not a map
abbrev pub Plain : Value → Type 0
Plain nil = Unit {0}
Plain (leaf t) = Unit {0}
Plain (object m) = ⊥

-- From a value on, a path comes to an entry that is not there.
abbrev pub Missing : Option Value → List String → Type 0
Missing none path = Unit {0}
Missing (some nil) path = ⊥
Missing (some (leaf t)) path = ⊥
Missing (some (object m)) [] = ⊥
Missing (some (object m)) (part ∷ parts) = Missing (get part m) parts

-- what a path reads below an entry
below_of : Option Value → List String → Option Value
below_of none path = none
below_of (some v) path = value_at (get_loop [] v path)

get_loop-below :
    (s : List String) (m : Fields) (part : String) (parts : List String)
    → value_at (get_loop s (object m) (part ∷ parts)) ≡ below_of (get part m) parts
unfolding get_loop below_of
get_loop-below s m part parts = elim (Option-cases (get part m)) [
  | inl free ↦ ground arith
  | inr (v, there) ↦ ground (arith, value_at-get_loop (s ++ part ∷ []) [] v parts)
]

merge_value-Plain : (old : Option Value) (v : Value) → Plain v → merge_value old v ≡ v
unfolding merge_value
merge_value-Plain none nil p = refl
merge_value-Plain none (leaf t) p = refl
merge_value-Plain none (object m) p = absurd p
merge_value-Plain (some nil) nil p = refl
merge_value-Plain (some (leaf x)) nil p = refl
merge_value-Plain (some (object l)) nil p = refl
merge_value-Plain (some nil) (leaf t) p = refl
merge_value-Plain (some (leaf x)) (leaf t) p = refl
merge_value-Plain (some (object l)) (leaf t) p = refl
merge_value-Plain (some v) (object m) p = absurd p

-- The entries of a part in two maps that are merged, where the right one has every key once.
module _ (l r : Fields) (u : Unique r) (part : String) where
  merged_below :
      (parts : List String)
      → below_of (merged (some (object l)) (some (object r))) (part ∷ parts)
        ≡ below_of (merged (get part l) (get part r)) parts
  unfolding below_of merge_value
  merged_below parts =
      rw (← get-map_merge_deep part l r u) (get_loop-below [] (map_merge_deep l r) part parts)

  object_below :
      (parts : List String)
      → below_of (some (object r)) (part ∷ parts) ≡ below_of (get part r) parts
  unfolding below_of
  object_below parts = get_loop-below [] r part parts

-- What the entry of a right map may be: all maps in it have every key once.
abbrev UniqueEntry : Option Value → Type 0
UniqueEntry none = Unit {0}
UniqueEntry (some v) = UniqueValue v

Unique-entry : (part : String) (m : Fields) → Unique m → UniqueEntry (get part m)
Unique-entry part m u = elim (Option-cases (get part m)) [
  | inl free ↦ rw free tt
  | inr (v, there) ↦ rw there (Unique-get part m v u there)
]

-- An entry of a merged map reads as the right one where that ends in a plain value.
merged_right :
    (parts : List String) (left right : Option Value) (v : Value)
    → Plain v
    → UniqueEntry right
    → below_of right parts ≡ some v
    → below_of (merged left right) parts ≡ some v
unfolding below_of merge_value get_loop
merged_right parts left none v p u h = cc
merged_right parts left (some nil) v p u h = rw (merge_value-Plain left nil tt) h
merged_right parts left (some (leaf t)) v p u h = rw (merge_value-Plain left (leaf t) tt) h
merged_right parts none (some (object r)) v p u h = h
merged_right parts (some nil) (some (object r)) v p u h = h
merged_right parts (some (leaf t)) (some (object r)) v p u h = h
merged_right [] (some (object l)) (some (object r)) nil p u h = ground arith
merged_right [] (some (object l)) (some (object r)) (leaf t) p u h = ground arith
merged_right [] (some (object l)) (some (object r)) (object m) p u h = absurd p
merged_right (part ∷ parts) (some (object l)) (some (object r)) v p u h =
    merged_below l r u part parts
    ∙ merged_right parts (get part l) (get part r) v p (Unique-entry part r u)
        (sym (object_below l r u part parts) ∙ h)

below_of-Missing :
    (parts : List String) (entry : Option Value) → Missing entry parts → below_of entry parts ≡ none
unfolding below_of
below_of-Missing parts none h = refl
below_of-Missing parts (some nil) h = absurd h
below_of-Missing parts (some (leaf t)) h = absurd h
below_of-Missing [] (some (object m)) h = absurd h
below_of-Missing (part ∷ parts) (some (object m)) h =
    get_loop-below [] m part parts ∙ below_of-Missing parts (get part m) h

-- It reads as the left one where the right one has no entry on the way.
merged_left :
    (parts : List String) (left right : Option Value)
    → Missing right parts
    → UniqueEntry right
    → below_of (merged left right) parts ≡ below_of left parts
unfolding below_of merge_value get_loop
merged_left parts left none h u = refl
merged_left parts left (some nil) h u = absurd h
merged_left parts left (some (leaf t)) h u = absurd h
merged_left [] left (some (object r)) h u = absurd h
merged_left (part ∷ parts) none (some (object r)) h u =
    below_of-Missing (part ∷ parts) (some (object r)) h
merged_left (part ∷ parts) (some nil) (some (object r)) h u =
    below_of-Missing (part ∷ parts) (some (object r)) h
merged_left (part ∷ parts) (some (leaf t)) (some (object r)) h u =
    below_of-Missing (part ∷ parts) (some (object r)) h
merged_left (part ∷ parts) (some (object l)) (some (object r)) h u =
    merged_below l r u part parts
    ∙ merged_left parts (get part l) (get part r) h (Unique-entry part r u)
    ∙ sym (get_loop-below [] l part parts)

-- In the merged map `MapGetKV` reads the right map's value wherever that is nil or another plain
-- value, and the left map's value, or none, wherever the right map has no entry on the way.
pub map_merge_deep_lem :
    (left right : Fields) (key : String)
    → Unique right
    → ((v : Value)
        → Plain v
        → map_get_kv right key ≡ ok v
        → value_at (map_get_kv (map_merge_deep left right) key) ≡ some v)
      × (Missing (some (object right)) (split key)
          → value_at (map_get_kv (map_merge_deep left right) key) ≡ value_at (map_get_kv left key))
unfolding map_get_kv below_of merge_value
map_merge_deep_lem left right key u = (
  λ v p h.
      merged_right (split key) (some (object left)) (some (object right)) v p u (ap value_at h),
  λ missing. merged_left (split key) (some (object left)) (some (object right)) missing u,
)
