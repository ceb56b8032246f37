-- ===== src/Repo/FsRepo/Creating/Usable.antt =====
-- kubo-master/repo/fsrepo/fsrepo.go: `Open` after `Init`.
use bock_ipfs.Base.Results.{ok, Result-cases}
use bock_ipfs.Base.Int.{ℤ}
use bock_ipfs.Base.{
  str_eq, if◌then◌else◌, Option-cases, ℕ, String, ◌≡◌, refl, ap, ◌∙◌, ◌⊎◌, inl, inr, true, false,
  ◌||◌, none, some, [], ◌∷◌, arith, eq_iff,
}
use bock_ipfs.Repo.FsRepo.{
  current_version, locked, OpenConfig, FsRepo, version, overrides, no_overrides_file, Host,
  check_version, keep_locked, config_is_initialized, check_initialized, new_fs_repo, lock_way,
  open_overrides, open_datastore, open_locked, open_fs,
}
use bock_ipfs.Repo.FsRepo.Creating.{
  missing, whole, exists, Files, Creation, layout_of, is_initialized, init,
}
use bock_ipfs.Repo.FsRepo.Creating.Initial.{init_lem}

-- a directory without a repository
abbrev pub no_files : Files
no_files = record { config_file = missing; spec_file = missing; version_file = missing }

-- What is read from the disk is what the files have, and the datastores are the same.
pub record Agrees (h : Host) (c : Creation) (path name : String) (fs : Files) : Type 0 where
  pub expanded : h.expand_home path ≡ ok path
  pub named : h.config_filename path "" ≡ ok name
  pub found : h.file_exists name ≡ exists fs.config_file
  pub versions : (v : ℤ) → fs.version_file ≡ whole v → h.repo_version ≡ version v
  pub configs : (conf : OpenConfig) → fs.config_file ≡ whole conf → h.load_config name ≡ ok conf
  pub specs : (s : String) → fs.spec_file ≡ whole s → h.read_spec ≡ ok s
  pub layouts : (t : String) → h.disk_spec t ≡ c.disk_spec t

-- Nothing else is in the way of opening.
pub record Free (h : Host) (path : String) (ds : ℕ) : Type 0 where
  pub unlocked : h.lock (lock_way h) ≡ none
  pub writable : h.writable ≡ none
  pub readable : (h.read_overrides ≡ overrides) ⊎ (h.read_overrides ≡ no_overrides_file)
  pub datastore : h.create_datastore path ≡ ok ds
  pub keystore : h.new_keystore ≡ none

empty_is_new : (c : Creation) → is_initialized c no_files ≡ false
unfolding is_initialized exists
empty_is_new c = elim (Result-cases c.config_name) [
  | inr (x, bad) ↦ ground arith
  | inl (name, good) ↦ ground arith
]

module _ (h : Host) (c : Creation) (path name : String) (conf : OpenConfig) where
  open_datastore_lem :
      (ds : ℕ) (spec : String) (fs : Files)
      → Agrees h c path name fs
      → Free h path ds
      → conf.datastore_type ≡ ""
      → conf.datastore_path ≡ ""
      → layout_of c conf ≡ ok spec
      → fs.spec_file ≡ whole spec
      → open_datastore h conf path ≡ ok ds
  unfolding open_datastore layout_of
  open_datastore_lem ds spec fs a f no_type no_path spec_is there =
      elim (Option-cases conf.datastore_spec) [
        | inl e ↦ ground (arith, spec_is, e)
        | inr (t, e) ↦
            let e1 : h.disk_spec t ≡ ok spec = ground (arith, a.layouts t, spec_is, e) in
            let e2 : h.read_spec ≡ ok spec = a.specs spec there in
            let same : str_eq spec spec ≡ true = ground (arith, eq_iff spec spec) in
            let no1 : str_eq conf.datastore_type "" ≡ true =
              ground (arith, eq_iff conf.datastore_type "") in
            let no2 : str_eq conf.datastore_path "" ≡ true =
              ground (arith, eq_iff conf.datastore_path "") in
            ground (arith, f.datastore, e1, e2, same, no1, no2, e)
      ]

  open_locked_fine :
      (ds : ℕ) (fs : Files)
      → Agrees h c path name fs
      → Free h path ds
      → fs.config_file ≡ whole conf
      → fs.version_file ≡ whole current_version
      → open_datastore h conf path ≡ ok ds
      → (r : FsRepo) × (open_locked h path name ≡ ok r) × (r.config ≡ conf) × (r.ds ≡ ds)
  unfolding open_locked open_overrides check_version open_datastore
  open_locked_fine ds fs a f has_config has_version opened =
      let e1 : h.repo_version ≡ version current_version = a.versions current_version has_version in
      let e2 : h.load_config name ≡ ok conf = a.configs conf has_config in
      let r : FsRepo = record {
        closed = false;
        path = path;
        config = conf;
        ds = ds;
        filemgr =
            if conf.filestore_enabled || conf.urlstore_enabled
            then some (conf.filestore_enabled, conf.urlstore_enabled)
            else none;
      } in
      elim f.readable [
        | inl some_file ↦
            (r, rw (e1, f.writable, e2, some_file, opened, f.keystore) refl, refl, refl)
        | inr no_file ↦ (r, rw (e1, f.writable, e2, no_file, opened, f.keystore) refl, refl, refl)
      ]

  open_fs_fine :
      (ds : ℕ) (fs : Files) (r : FsRepo)
      → Agrees h c path name fs
      → Free h path ds
      → fs.config_file ≡ whole conf
      → open_locked h path name ≡ ok r
      → open_fs h path "" ≡ (locked ∷ [], ok r)
  unfolding open_fs new_fs_repo check_initialized config_is_initialized exists keep_locked
  open_fs_fine ds fs r a f has_config opened =
      let there : h.file_exists name ≡ true = a.found ∙ ap exists has_config in
      ground (arith, a.expanded, a.named, there, f.unlocked, opened)

  -- `Init` in a directory without a repository, when it succeeds, leaves one that `Open` opens and
  -- locks, with the given configuration and its datastore, provided that the configuration has no
  -- old-style datastore, that the new configuration file was put in its place, that the disk gives
  -- back what was written, and that the lock, the access check, the overrides, which may be there or
  -- not, the datastore and the keystore are not in the way.
  pub open_fs-init :
      (ds : ℕ)
      → Agrees h c path name (init c conf no_files).0
      → Free h path ds
      → conf.datastore_type ≡ ""
      → conf.datastore_path ≡ ""
      → c.renamed ≡ true
      → (init c conf no_files).1 ≡ none
      → (r : FsRepo) × (open_fs h path "" ≡ (locked ∷ [], ok r)) × (r.config ≡ conf) × (r.ds ≡ ds)
  unfolding exists
  open_fs-init ds a f no_type no_path placed fine =
      let fs : Files = (init c conf no_files).0 in
      let e : init c conf no_files ≡ (fs, none) = ap (λ o. (fs, o)) fine in
      elim (init_lem c conf no_files fs e) [
        | inl (old, same) ↦ ground (arith, empty_is_new c)
        | inr (new, config_in_place, has_version, kept) ↦ elim kept [
          | inl (there, same) ↦ (let t = there in cc)
          | inr (spec, made, has_spec) ↦
              let has_config : fs.config_file ≡ whole conf = config_in_place.0 placed in
              let opened = open_datastore_lem ds spec fs a f no_type no_path made has_spec in
              let (r, locked_part, rc, rd) =
                open_locked_fine ds fs a f has_config has_version opened in
              (r, open_fs_fine ds fs r a f has_config locked_part, rc, rd)
        ]
      ]
