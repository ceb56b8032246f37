-- ===== src/Repo/FsRepo/Settings.antt =====
-- kubo-master/repo/fsrepo/fsrepo.go: the configuration of an open repository, `SetConfig`,
-- `SetConfigKey` and `GetConfigKey`; kubo-master/config/config.go: `CheckKey`.
use bock_ipfs.Base.Results.{Result, ok, err}
use bock_ipfs.Base.{
  if◌then◌else◌, String, ◌≡◌, refl, ◌⊎◌, inl, inr, Bool, Option, none, some, List, [], ◌∷◌, ◌++◌,
}
use bock_ipfs.Repo.Common.Keys.{split, join}
use bock_ipfs.Repo.Common.{
  Value, nil, leaf, object, Fields, get, KeyError, not_a_map, not_found, map_get_kv, map_set_kv,
  map_merge_deep,
}

-- the loop of `CheckKey` over the map of an empty configuration
unfoldable pub check_loop : List String → Value → List String → Option KeyError
check_loop sofar cursor [] = none
check_loop sofar nil (part ∷ parts) = none
check_loop sofar (leaf t) (part ∷ parts) = some (not_a_map (join sofar))
check_loop sofar (object m) (part ∷ parts) = elim (get part m) [
  | some v ↦ check_loop (sofar ++ part ∷ []) v parts
  | none ↦ elim (get "*" m) [
    | some v ↦ check_loop (sofar ++ part ∷ []) v parts
    | none ↦ some (not_found (join (sofar ++ part ∷ [])))
  ]
]

-- `CheckKey`, with the map that `ReflectToMap` makes of an empty configuration
unfoldable pub check_key : Fields → String → Option KeyError
check_key schema key = check_loop [] (object schema) (split key)

-- `PrivKeySelector`
abbrev pub priv_key_selector : String
priv_key_selector = "Identity.PrivKey"

-- What comes of writing the file: a write that fails half-way still replaces the file, since the
-- deferred `Close` of an `atomicfile` renames what there is; and the error of that `Close` is dropped,
-- so that a file that could not be renamed is lost without an error.
pub data Written : Type 0 where
  written : Written
  not_written : String → Written
  damaged : String → Fields → Written
  lost : Written

-- What the repository's configuration goes through, and what the disk answers: the types of a
-- configuration and their conversions, the map of an empty one, whether reading the file fails, and
-- what comes of writing it.
pub record Store : Type 1 where
  pub Config : Type 0
  pub to_map : Config → Result String Fields
  pub from_map : Fields → Result String Config
  pub schema : Fields
  pub read_error : Option String
  pub write : Written

pub data SettingError : Type 0 where
  repo_is_closed : SettingError
  key_error : KeyError → SettingError
  store_error : String → SettingError

-- Of an `FSRepo`: whether it is closed, the configuration in memory, and the file's map.
pub record Settings (C : Type 0) : Type 0 where
  pub closed : Bool
  pub config : C
  pub file : Fields

module _ (st : Store) where
  abbrev State : Type 0
  State = Settings st.Config

  -- `serialize.ReadConfigFile` into a map
  abbrev read_file : State → Result SettingError Fields
  read_file s = elim st.read_error [ some e ↦ err (store_error e) | none ↦ ok s.file ]

  -- `serialize.WriteConfigFile` of a map
  abbrev write_file : State → Fields → State × Option SettingError
  write_file s m = elim st.write [
    | written ↦ (record s { file = m }, none)
    | not_written e ↦ (s, some (store_error e))
    | damaged e left ↦ (record s { file = left }, some (store_error e))
    | lost ↦ (s, none)
  ]

  -- `SetConfig`
  unfoldable pub set_config :
      Settings st.Config → st.Config → Settings st.Config × Option SettingError
  set_config s updated = elim (read_file s) [
    | err e ↦ (s, some e)
    | ok mapconf ↦ elim (st.to_map updated) [
      | err e ↦ (s, some (store_error e))
      | ok m ↦
          let (s', e) = write_file s (map_merge_deep mapconf m) in
          elim e [ some x ↦ (s', some x) | none ↦ (record s' { config = updated }, none) ]
    ]
  ]

  -- `GetConfigKey`
  unfoldable pub get_config_key : Settings st.Config → String → Result SettingError Value
  get_config_key s key = if s.closed then err repo_is_closed else elim (read_file s) [
    | err e ↦ err e
    | ok cfg ↦ elim (map_get_kv cfg key) [ err e ↦ err (key_error e) | ok v ↦ ok v ]
  ]

  -- the end of `SetConfigKey`: the check against the struct, and the file
  unfoldable pub store_map : Settings st.Config → Fields → Settings st.Config × Option SettingError
  store_map s mapconf = elim (st.from_map mapconf) [
    | err e ↦ (s, some (store_error e))
    | ok conf ↦ write_file (record s { config = conf }) mapconf
  ]

  -- behind the second `MapSetKV`
  unfoldable pub store_restored :
      Settings st.Config → Fields × Option KeyError → Settings st.Config × Option SettingError
  unfolding store_map
  store_restored s (restored, some e) = (s, some (key_error e))
  store_restored s (restored, none) = store_map s restored

  -- behind the first `MapSetKV`: the private key goes back to where it was
  unfoldable pub restore_key :
      Settings st.Config
      → Value
      → Fields × Option KeyError
      → Settings st.Config × Option SettingError
  restore_key s pkval (mapconf, some e) = (s, some (key_error e))
  restore_key s pkval (mapconf, none) =
      store_restored s (map_set_kv mapconf priv_key_selector pkval)

  -- `SetConfigKey`
  unfoldable pub set_config_key :
      Settings st.Config → String → Value → Settings st.Config × Option SettingError
  set_config_key s key value =
      if s.closed then (s, some repo_is_closed) else elim (check_key st.schema key) [
        | some e ↦ (s, some (key_error e))
        | none ↦ elim (read_file s) [
          | err e ↦ (s, some e)
          | ok mapconf ↦ elim (map_get_kv mapconf priv_key_selector) [
            | err e ↦ (s, some (key_error e))
            | ok pkval ↦ restore_key s pkval (map_set_kv mapconf key value)
          ]
        ]
      ]

pub Written-cases :
    (w : Written)
    → (w ≡ written)
      ⊎ ((e : String) × (w ≡ not_written e))
      ⊎ ((e : String) × (left : Fields) × (w ≡ damaged e left))
      ⊎ (w ≡ lost)
Written-cases written = inl refl
Written-cases (not_written e) = inr (inl (e, refl))
Written-cases (damaged e left) = inr (inr (inl (e, left, refl)))
Written-cases lost = inr (inr (inr refl))
