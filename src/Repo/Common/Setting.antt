-- ===== src/Repo/Common/Setting.antt =====
-- kubo-master/repo/common/common.go: what `MapGetKV` reads after `MapSetKV`.
use bock_ipfs.Repo.Common.Keys.{split, split-ne-nil}
use bock_ipfs.Base.{
  str_eq, if◌then◌else◌, Option-cases, String, ◌≡◌, refl, ◌≢◌, ◌⊎◌, inl, inr, Option, none, some,
  List, [], ◌∷◌, ◌++◌, arith, eq_iff,
}
use bock_ipfs.Base.Results.{Result, ok, err, IsOk}
use bock_ipfs.Repo.Common.{
  Value, nil, leaf, object, Fields, end, field, get, put, KeyError, get_loop, map_get_kv, child_of,
  set_loop, fields_of, map_set_kv,
}

pub get-put :
    (j k : String) (v : Value) (m : Fields)
    → get j (put k v m) ≡ (if str_eq k j then some v else get j m)
unfolding get put
get-put j k v end = refl
get-put j k v (field i w m) = ground (arith, get-put j k v m, eq_iff i k, eq_iff i j, eq_iff k j)

-- The value at a path, without the text of an error.
abbrev pub value_at : Result KeyError Value → Option Value
value_at (ok v) = some v
value_at (err e) = none

-- Two paths go to different entries of some map.
abbrev pub Diverge : List String → List String → Type 0
Diverge [] q = ⊥
Diverge (a ∷ p) [] = ⊥
Diverge (a ∷ p) (b ∷ q) = (a ≢ b) ⊎ ((a ≡ b) × Diverge p q)

-- A written value is read back at the same path.
get_loop-set_loop :
    (sofar sofar' : List String) (cursor : Value) (path : List String) (v : Value)
    → path ≢ []
    → (set_loop sofar cursor path v).1 ≡ none
    → get_loop sofar' (set_loop sofar cursor path v).0 path ≡ ok v
unfolding set_loop get_loop
get_loop-set_loop sofar sofar' cursor [] v ne h = absurd (ne refl)
get_loop-set_loop sofar sofar' nil (part ∷ parts) v ne h = cc
get_loop-set_loop sofar sofar' (leaf t) (part ∷ parts) v ne h = cc
get_loop-set_loop sofar sofar' (object m) (part ∷ []) v ne h =
    ground (arith, get-put part part v m, eq_iff part part)
get_loop-set_loop sofar sofar' (object m) (part ∷ next ∷ parts) v ne h =
    let (child, e) = set_loop (sofar ++ part ∷ []) (child_of (get part m)) (next ∷ parts) v in
    ground (
      arith,
      get-put part part child m,
      eq_iff part part,
      get_loop-set_loop (sofar ++ part ∷ []) (sofar' ++ part ∷ []) (child_of (get part m))
          (next ∷ parts) v (λ (e : ◌≡◌ {A = List String} (next ∷ parts) []). cc) h,
    )

-- Below an empty map nothing fails.
set_loop-end :
    (sofar : List String) (part : String) (parts : List String) (v : Value)
    → (set_loop sofar (object end) (part ∷ parts) v).1 ≡ none
unfolding set_loop get
set_loop-end sofar part [] v = refl
set_loop-end sofar part (next ∷ parts) v = set_loop-end (sofar ++ part ∷ []) next parts v

put_same : (k : String) (v : Value) (m : Fields) → get k m ≡ some v → put k v m ≡ m
unfolding get put
put_same k v end h = cc
put_same k v (field j w m) h = ground (arith, eq_iff j k, put_same k v m)

-- A write that fails has changed nothing.
set_loop_fails :
    (sofar : List String) (cursor : Value) (path : List String) (v : Value) (e : KeyError)
    → (set_loop sofar cursor path v).1 ≡ some e
    → (set_loop sofar cursor path v).0 ≡ cursor
unfolding set_loop
set_loop_fails sofar cursor [] v e h = refl
set_loop_fails sofar nil (part ∷ parts) v e h = refl
set_loop_fails sofar (leaf t) (part ∷ parts) v e h = refl
set_loop_fails sofar (object m) (part ∷ []) v e h = cc
set_loop_fails sofar (object m) (part ∷ next ∷ parts) v e h =
    let at = sofar ++ part ∷ [] in
    elim (Option-cases (get part m)) [
      | inl free ↦ ground (arith, set_loop-end at next parts v)
      | inr (nil, there) ↦ ground (arith, set_loop-end at next parts v)
      | inr (leaf t, there) ↦ ground (arith, put_same part (leaf t) m)
      | inr (object f, there) ↦
          ground
            (arith, set_loop_fails at (object f) (next ∷ parts) v e, put_same part (object f) m)
    ]

get_loop-end :
    (sofar : List String) (part : String) (parts : List String)
    → value_at (get_loop sofar (object end) (part ∷ parts)) ≡ none
unfolding get_loop get
get_loop-end sofar part parts = refl

-- the value does not depend on the parts for the error
pub value_at-get_loop :
    (s t : List String) (cursor : Value) (path : List String)
    → value_at (get_loop s cursor path) ≡ value_at (get_loop t cursor path)
unfolding get_loop
value_at-get_loop s t cursor [] = refl
value_at-get_loop s t nil (part ∷ parts) = refl
value_at-get_loop s t (leaf x) (part ∷ parts) = refl
value_at-get_loop s t (object m) (part ∷ parts) = elim (Option-cases (get part m)) [
  | inl free ↦ ground arith
  | inr (v, there) ↦ ground (arith, value_at-get_loop (s ++ part ∷ []) (t ++ part ∷ []) v parts)
]

-- A write is not seen at a path that diverges from it.
get_loop_diverging :
    (s t : List String) (cursor : Value) (path q : List String) (v : Value)
    → Diverge path q
    → value_at (get_loop s (set_loop t cursor path v).0 q) ≡ value_at (get_loop s cursor q)
unfolding set_loop get_loop
get_loop_diverging s t cursor [] q v d = absurd d
get_loop_diverging s t cursor (a ∷ path) [] v d = absurd d
get_loop_diverging s t nil (a ∷ path) (b ∷ q) v d = refl
get_loop_diverging s t (leaf x) (a ∷ path) (b ∷ q) v d = refl
get_loop_diverging s t (object m) (a ∷ []) (b ∷ q) v (inl other) =
    ground (arith, get-put b a v m, eq_iff a b)
get_loop_diverging s t (object m) (a ∷ []) (b ∷ q) v (inr (same, d)) = absurd d
get_loop_diverging s t (object m) (a ∷ next ∷ path) (b ∷ q) v (inl other) =
    let (child, e) = set_loop (t ++ a ∷ []) (child_of (get a m)) (next ∷ path) v in
    ground (arith, get-put b a child m, eq_iff a b)
get_loop_diverging s t (object m) (a ∷ next ∷ path) (b ∷ []) v (inr (same, d)) = absurd d
get_loop_diverging s t (object m) (a ∷ next ∷ path) (b ∷ c ∷ q) v (inr (same, d)) =
    let (child, e) = set_loop (t ++ a ∷ []) (child_of (get a m)) (next ∷ path) v in
    let below =
      get_loop_diverging (s ++ b ∷ []) (t ++ a ∷ []) (child_of (get a m)) (next ∷ path) (c ∷ q) v
        d in
    elim (Option-cases (get a m)) [
      | inl free ↦
          ground (arith, get-put b a child m, eq_iff a b, below, get_loop-end (s ++ b ∷ []) c q)
      | inr (nil, there) ↦
          ground (arith, get-put b a child m, eq_iff a b, below, get_loop-end (s ++ b ∷ []) c q)
      | inr (leaf x, there) ↦ ground (arith, get-put b a child m, eq_iff a b, below)
      | inr (object f, there) ↦ ground (arith, get-put b a child m, eq_iff a b, below)
    ]

-- A key that can be read can be written.
set_loop_succeeds :
    (s t : List String) (cursor : Value) (path : List String) (v : Value)
    → IsOk (get_loop s cursor path)
    → (set_loop t cursor path v).1 ≡ none
unfolding set_loop get_loop
set_loop_succeeds s t cursor [] v h = refl
set_loop_succeeds s t nil (part ∷ parts) v h = absurd h
set_loop_succeeds s t (leaf x) (part ∷ parts) v h = absurd h
set_loop_succeeds s t (object m) (part ∷ []) v h = refl
set_loop_succeeds s t (object m) (part ∷ next ∷ parts) v h = elim (Option-cases (get part m)) [
  | inl free ↦ ground (arith, set_loop-end (t ++ part ∷ []) next parts v)
  | inr (nil, there) ↦ ground (arith, set_loop-end (t ++ part ∷ []) next parts v)
  | inr (leaf x, there) ↦ absurd (rw (there, get_loop, IsOk) at h)
  | inr (object f, there) ↦
      let below : IsOk (get_loop (s ++ part ∷ []) (object f) (next ∷ parts)) =
        rw (there, get_loop) at h in
      ground (
        arith,
        set_loop_succeeds (s ++ part ∷ []) (t ++ part ∷ []) (object f) (next ∷ parts) v below,
        there,
      )
]

set_loop-object :
    (sofar : List String) (m : Fields) (path : List String) (v : Value)
    → (set_loop sofar (object m) path v).0 ≡ object (fields_of (set_loop sofar (object m) path v).0)
unfolding set_loop
set_loop-object sofar m [] v = refl
set_loop-object sofar m (part ∷ []) v = refl
set_loop-object sofar m (part ∷ next ∷ parts) v = refl

-- `MapSetKV` that succeeds is read back by `MapGetKV`; one that fails has changed nothing; it
-- succeeds at every key that can be read; and in any case a key whose path diverges from the
-- written one has the value, or has none, as before.
pub map_set_kv_lem :
    (m : Fields) (key : String) (v : Value)
    → let (m', e) = map_set_kv m key v in
      (e ≡ none → map_get_kv m' key ≡ ok v)
      × ((x : KeyError) → e ≡ some x → m' ≡ m)
      × (IsOk (map_get_kv m key) → e ≡ none)
      × ((other : String)
          → Diverge (split key) (split other)
          → value_at (map_get_kv m' other) ≡ value_at (map_get_kv m other))
unfolding map_set_kv map_get_kv
map_set_kv_lem m key v =
    let whole = set_loop-object [] m (split key) v in
    (
      λ fine.
          rw (← whole) (get_loop-set_loop [] [] (object m) (split key) v (split-ne-nil key) fine),
      λ x failing. ground (arith, set_loop_fails [] (object m) (split key) v x),
      λ readable. set_loop_succeeds [] [] (object m) (split key) v readable,
      λ other apart.
          rw (← whole) (get_loop_diverging [] [] (object m) (split key) (split other) v apart),
    )
