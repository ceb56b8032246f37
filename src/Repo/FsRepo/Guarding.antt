-- ===== src/Repo/FsRepo/Guarding.antt =====
-- kubo-master/repo/fsrepo/fsrepo.go: `SetConfigKey` guards the private key, and `SetConfig` keeps
-- what only the user's file has.
use bock_ipfs.Base.Results.{Result, ok, err, Result-cases}
use bock_ipfs.Base.{
  Bool-cases, Option-cases, String, ◌≡◌, refl, sym, ap, ◌∙◌, ◌≢◌, ◌⊎◌, inl, inr, Option, none, some,
  arith,
}
use bock_ipfs.Repo.Common.Keys.{split}
use bock_ipfs.Repo.Common.{Value, object, Fields, KeyError, map_get_kv, map_set_kv}
use bock_ipfs.Repo.Common.Setting.{value_at, Diverge, map_set_kv_lem}
use bock_ipfs.Repo.Common.Merging.{Unique, Plain, Missing, map_merge_deep_lem}
use bock_ipfs.Repo.FsRepo.Settings.{
  check_key, priv_key_selector, damaged, lost, Store, SettingError, repo_is_closed, key_error,
  store_error, Settings, set_config, store_map, store_restored, restore_key, set_config_key,
  Written-cases,
}

-- the value of the private key in a file
abbrev pub private_key : Fields → Result KeyError Value
private_key m = map_get_kv m priv_key_selector

-- What may be in the file after `SetConfigKey` of a key: what was there, or, if there was no error,
-- a map with the value at the key, if that is not the private key's or a part of its path.
module _ (st : Store) where
  -- the map is in the file, or the file is as it was because its renaming failed
  abbrev Stored : Settings st.Config → Fields → Settings st.Config → Type 0
  Stored s m s' = (s'.file ≡ m) ⊎ ((st.write ≡ lost) × (s'.file ≡ s.file))

  store_map_lem :
      (s : Settings st.Config) (m : Fields)
      → ((e : String) (left : Fields) → st.write ≢ damaged e left)
      → (((store_map st s m).1 ≡ none) × Stored s m (store_map st s m).0)
        ⊎ ((e : SettingError) × ((store_map st s m).1 ≡ some e)
            × ((store_map st s m).0.file ≡ s.file))
  unfolding store_map
  store_map_lem s m whole = elim (Result-cases (st.from_map m)) [
    | inr (e, bad) ↦ inr (store_error e, ground arith, ground arith)
    | inl (c, good) ↦ elim (Written-cases st.write) [
      | inl fine ↦ inl (ground arith, inl (ground arith))
      | inr (inl (e, refused)) ↦ inr (store_error e, ground arith, ground arith)
      | inr (inr (inl (e, left, harm))) ↦ absurd (whole e left harm)
      | inr (inr (inr gone)) ↦ inl (ground arith, inr (gone, ground arith))
    ]
  ]

  -- how `SetConfigKey` may end: with an error and the file as it was, or with both writes done
  abbrev Ended :
      Settings st.Config → String → Value → Settings st.Config × Option SettingError → Type 0
  Ended s key value (s', e) =
      ((x : SettingError) × (e ≡ some x) × (s'.file ≡ s.file))
      ⊎ ((pkval : Value) × (m : Fields) × (restored : Fields) × (e ≡ none)
          × (private_key s.file ≡ ok pkval)
          × (map_set_kv s.file key value ≡ (m, none))
          × (map_set_kv m priv_key_selector pkval ≡ (restored, none))
          × Stored s restored s')

  store_restored-Ended :
      (s : Settings st.Config) (key : String) (value pkval : Value) (m : Fields)
      (r : Fields × Option KeyError)
      → ((e : String) (left : Fields) → st.write ≢ damaged e left)
      → private_key s.file ≡ ok pkval
      → map_set_kv s.file key value ≡ (m, none)
      → map_set_kv m priv_key_selector pkval ≡ r
      → Ended s key value (store_restored st s r)
  unfolding store_restored
  store_restored-Ended s key value pkval m (n, some x) whole there set back =
      inl (key_error x, refl, refl)
  store_restored-Ended s key value pkval m (n, none) whole there set back =
      elim (store_map_lem s n whole) [
        | inl (fine, stored) ↦ inr (pkval, m, n, fine, there, set, back, stored)
        | inr failing ↦ inl failing
      ]

  restore_key-Ended :
      (s : Settings st.Config) (key : String) (value pkval : Value) (r : Fields × Option KeyError)
      → ((e : String) (left : Fields) → st.write ≢ damaged e left)
      → private_key s.file ≡ ok pkval
      → map_set_kv s.file key value ≡ r
      → Ended s key value (restore_key st s pkval r)
  unfolding restore_key
  restore_key-Ended s key value pkval (m, some e) whole there set = inl (key_error e, refl, refl)
  restore_key-Ended s key value pkval (m, none) whole there set =
      store_restored-Ended s key value pkval m (map_set_kv m priv_key_selector pkval) whole there
        set refl

  set_config_key-Ended :
      (s : Settings st.Config) (key : String) (value : Value)
      → ((e : String) (left : Fields) → st.write ≢ damaged e left)
      → Ended s key value (set_config_key st s key value)
  unfolding set_config_key
  set_config_key-Ended s key value whole = elim (Bool-cases s.closed) [
    | inl shut ↦ inl (repo_is_closed, ground arith, ground arith)
    | inr usable ↦ elim (Option-cases (check_key st.schema key)) [
      | inr (x, bad) ↦ inl (key_error x, ground arith, ground arith)
      | inl known ↦ elim (Option-cases st.read_error) [
        | inr (x, bad) ↦ inl (store_error x, ground arith, ground arith)
        | inl readable ↦ elim (Result-cases (private_key s.file)) [
          | inr (x, bad) ↦ inl (key_error x, ground arith, ground arith)
          | inl (pkval, there) ↦
              let run : set_config_key st s key value
                  ≡ restore_key st s pkval (map_set_kv s.file key value) =
                ground arith in
              rw run
                (restore_key-Ended s key value pkval (map_set_kv s.file key value) whole there refl)
        ]
      ]
    ]
  ]

  value_at-some : (r : Result KeyError Value) (v : Value) → value_at r ≡ some v → r ≡ ok v
  value_at-some (ok w) v e = cc
  value_at-some (err x) v e = cc

  -- `SetConfigKey` never changes the private key in the file, whatever key it sets; an error leaves
  -- the whole file as it was; and without an error `MapGetKV` reads the new value at the key, if its
  -- path diverges from the private key's and the file is not lost without an error. The write of the
  -- file is not to fail half-way.
  pub set_config_key_lem :
      (s : Settings st.Config) (key : String) (value : Value)
      → ((e : String) (left : Fields) → st.write ≢ damaged e left)
      → let (s', e) = set_config_key st s key value in
        (private_key s'.file ≡ private_key s.file)
        × ((x : SettingError) → e ≡ some x → s'.file ≡ s.file)
        × (e ≡ none
            → st.write ≢ lost
            → Diverge (split priv_key_selector) (split key)
            → map_get_kv s'.file key ≡ ok value)
  set_config_key_lem s key value whole = elim (set_config_key-Ended s key value whole) [
    | inl (x, failing, same) ↦ (ap private_key same, λ y e. same, λ fine kept apart. cc)
    | inr (pkval, m, n, fine, there, set, back, inr (gone, kept)) ↦
        (ap private_key kept, λ x e. kept, λ fine' present apart. absurd (present gone))
    | inr (pkval, m, n, fine, there, set, back, inl stored) ↦
        let setting = map_set_kv_lem s.file key value in
        let restoring = map_set_kv_lem m priv_key_selector pkval in
        (
          rw stored (
              ap (λ (t : Fields × Option KeyError). map_get_kv t.0 priv_key_selector) (sym back)
              ∙ restoring.0 (ap (λ (t : Fields × Option KeyError). t.1) back)
              ∙ sym there),
          λ x e. cc,
          λ fine' present apart. rw stored (
              value_at-some (map_get_kv n key) value (
                ap (λ (t : Fields × Option KeyError). value_at (map_get_kv t.0 key)) (sym back)
                ∙ restoring.3 key apart
                ∙ ap (λ (t : Fields × Option KeyError). value_at (map_get_kv t.0 key)) (sym set)
                ∙ ap value_at (setting.0 (ap (λ (t : Fields × Option KeyError). t.1) set)))),
        )
  ]

  -- What `SetConfig` of a configuration without an error leaves, whose map is `m`.
  abbrev pub Configured : Settings st.Config → st.Config → Fields → Settings st.Config → Type 0
  Configured s updated m s' =
      (st.to_map updated ≡ ok m)
      × (s'.config ≡ updated)
      × (st.write ≡ lost → s'.file ≡ s.file)
      × (st.write ≢ lost
          → Unique m
          → ((key : String) (v : Value)
              → Plain v
              → map_get_kv m key ≡ ok v
              → value_at (map_get_kv s'.file key) ≡ some v)
            × ((key : String)
                → Missing (some (object m)) (split key)
                → value_at (map_get_kv s'.file key) ≡ value_at (map_get_kv s.file key)))

  -- `SetConfig` with an error leaves everything as it was, whatever failed. Without one the repository
  -- has the new configuration, which has a map; and its file has every plain value of that map and
  -- keeps what the map says nothing about, if the map has every key once, or is as it was if its
  -- renaming failed without an error. The write of the file is not to fail half-way.
  pub set_config_lem :
      (s : Settings st.Config) (updated : st.Config)
      → ((e : String) (left : Fields) → st.write ≢ damaged e left)
      → let (s', e) = set_config st s updated in
        ((x : SettingError) → e ≡ some x → s' ≡ s)
        × (e ≡ none → (m : Fields) × Configured s updated m s')
  unfolding set_config
  set_config_lem s updated whole = elim (Option-cases st.read_error) [
    | inr (x, bad) ↦ (λ y e. ground arith, λ e. absurd (ground (arith, bad)))
    | inl readable ↦ elim (Result-cases (st.to_map updated)) [
      | inr (x, bad) ↦ (λ y e. ground arith, λ e. absurd (ground (arith, bad)))
      | inl (m, mapped) ↦
          let merge = λ (key : String). map_merge_deep_lem s.file m key in
          elim (Written-cases st.write) [
            | inl fine ↦ (
              λ y e. absurd (ground arith),
              λ e. (
                m,
                (
                  mapped,
                  ground arith,
                  λ gone. absurd (ground (arith, fine, gone)),
                  λ present unique. (
                    λ key v p h. ground (arith, (merge key unique).0 v p h),
                    λ key h. ground (arith, (merge key unique).1 h),
                  ),
                ),
              ),
            )
            | inr (inl (x, refused)) ↦ (λ y e. ground arith, λ e. absurd (ground arith))
            | inr (inr (inl (x, left, harm))) ↦ absurd (whole x left harm)
            | inr (inr (inr gone)) ↦ (
              λ y e. absurd (ground arith),
              λ e. (m, (mapped, ground arith, λ g. ground arith, λ present. absurd (present gone))),
            )
          ]
    ]
  ]
