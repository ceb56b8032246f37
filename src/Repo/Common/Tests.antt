-- ===== src/Repo/Common/Tests.antt =====
-- Runs of the nested maps, and instances of the theorems.
use bock_ipfs.Base.Results.{ok, err, IsOk}
use bock_ipfs.Base.{String, ◌≡◌, refl, none, some, [], ◌∷◌}
use bock_ipfs.Repo.Common.Keys.{split, join}
use bock_ipfs.Repo.Common.{
  Value, leaf, object, Fields, end, field, get, put, KeyError, not_a_map, not_found, get_loop,
  map_get_kv, set_loop, map_set_kv, map_merge_deep,
}
use bock_ipfs.Repo.Common.Setting.{value_at, Diverge, map_set_kv_lem}
use bock_ipfs.Repo.Common.Merging.{Unique, Plain, Missing, map_merge_deep_lem}

-- { "API": { "Port": 1 }, "Name": "n" }
abbrev small : Fields
small = field "API" (object (field "Port" (leaf "1") end)) (field "Name" (leaf "n") end)

found : map_get_kv small "API.Port" ≡ ok (leaf "1")
unfolding map_get_kv get_loop split get
found = refl

absent : map_get_kv small "API.Host" ≡ err (not_found "API.Host")
unfolding map_get_kv get_loop split get join
absent = refl

not_map : map_get_kv small "Name.First" ≡ err (not_a_map "Name")
unfolding map_get_kv get_loop split get join
not_map = refl

created : map_get_kv (map_set_kv small "New.Deep.Key" (leaf "x")).0 "New.Deep.Key" ≡ ok (leaf "x")
unfolding map_get_kv get_loop split get map_set_kv set_loop put
created = refl

-- the parts of a key, empty ones too
parts : split "a..b" ≡ "a" ∷ "" ∷ "b" ∷ []
unfolding split
parts = refl

map_set_kv_lem_example :
    let (m', e) = map_set_kv small "API.Port" (leaf "2") in
    (e ≡ none → map_get_kv m' "API.Port" ≡ ok (leaf "2"))
    × ((x : KeyError) → e ≡ some x → m' ≡ small)
    × (IsOk (map_get_kv small "API.Port") → e ≡ none)
    × ((other : String)
        → Diverge (split "API.Port") (split other)
        → value_at (map_get_kv m' other) ≡ value_at (map_get_kv small other))
map_set_kv_lem_example = map_set_kv_lem small "API.Port" (leaf "2")

abbrev newer : Fields
newer = field "API" (object (field "Port" (leaf "2") end)) end

newer-Unique : Unique newer
unfolding get
newer-Unique = (refl, (refl, tt, tt), tt)

map_merge_deep_lem_example :
    ((v : Value)
      → Plain v
      → map_get_kv newer "Name" ≡ ok v
      → value_at (map_get_kv (map_merge_deep small newer) "Name") ≡ some v)
    × (Missing (some (object newer)) (split "Name")
        → value_at (map_get_kv (map_merge_deep small newer) "Name")
          ≡ value_at (map_get_kv small "Name"))
map_merge_deep_lem_example = map_merge_deep_lem small newer "Name" newer-Unique
