-- ===== src/Repo/FsRepo/Opening.antt =====
-- kubo-master/repo/fsrepo/fsrepo.go: what an opened repository has passed, and its lock.
use bock_ipfs.Base.Results.{
  Result, ok, err, Result-cases, ok_injective, checked, >>=-IsOk, checked-IsOk,
}
use bock_ipfs.Base.Int.{pos, negsuc}
use bock_ipfs.Base.{
  Option-cases, ℕ, String, ◌≡◌, refl, sym, ap, ◌∙◌, ◌⊎◌, inl, inr, true, false, Option, none, some,
  List, [], ◌∷◌, arith, eq_iff,
}
use bock_ipfs.Repo.FsRepo.{
  current_version, FsError, repo_closed, other_error, Event, locked, unlocked, removed, OpenConfig,
  FsRepo, VersionFile, version, no_version_file, version_failed, Host, check_version, keep_locked,
  other, failing, config_is_initialized, check_initialized, new_fs_repo, lock_way, open_overrides,
  open_datastore, open_locked, open_fs, Closing, close,
}

check_version_lem : (f : VersionFile) → check_version f ≡ none → f ≡ version current_version
unfolding check_version
check_version_lem no_version_file e = cc
check_version_lem (version_failed x) e = cc
check_version_lem (version (pos n)) e = let same : n ≡ 16 = ground arith in rw same refl
check_version_lem (version (negsuc n)) e = cc

other-IsOk : {A : Type 0} (r : Result String A) (a : A) → other r ≡ ok a → r ≡ ok a
other-IsOk (ok b) a e = cc
other-IsOk (err x) a e = cc

failing-eq-none : (o : Option String) → failing o ≡ none → o ≡ none
failing-eq-none none e = refl
failing-eq-none (some x) e = cc

-- A repository's datastore has the layout that is on the disk.
pub record HasDatastore (h : Host) (r : FsRepo) : Type 0 where
  pub spec : String
  pub config : String
  pub configured : r.config.datastore_spec ≡ some config
  pub layout : h.disk_spec config ≡ ok spec
  pub on_disk : h.read_spec ≡ ok spec
  pub created : h.create_datastore r.path ≡ ok r.ds

-- What an opened repository has passed: the version, the places of its files, its configuration,
-- its datastore and its keystore.
pub record IsOpened (h : Host) (rpath user_config : String) (r : FsRepo) : Type 0 where
  pub is_open : r.closed ≡ false
  pub current : h.repo_version ≡ version current_version
  pub file : String
  pub placed : new_fs_repo h rpath user_config ≡ ok (r.path, file)
  pub initialized : config_is_initialized h r.path ≡ true
  pub loaded : h.load_config file ≡ ok r.config
  pub datastore : HasDatastore h r
  pub keystore : h.new_keystore ≡ none
  pub writable : h.writable ≡ none

module _ (h : Host) where
  spec_of :
      (conf : OpenConfig) (path : String) (ds : ℕ)
      → open_datastore h conf path ≡ ok ds
      → (config : String) × (conf.datastore_spec ≡ some config)
  unfolding open_datastore
  spec_of conf path ds e = elim (Option-cases conf.datastore_spec) [
    | inl absent ↦ absurd (ground (arith, absent))
    | inr found ↦ found
  ]

  disk_spec_of :
      (conf : OpenConfig) (path config : String) (ds : ℕ)
      → conf.datastore_spec ≡ some config
      → open_datastore h conf path ≡ ok ds
      → (spec : String) × (h.disk_spec config ≡ ok spec)
        × (h.read_spec ≡ ok spec)
        × (h.create_datastore path ≡ ok ds)
  unfolding open_datastore
  disk_spec_of conf path config ds found e = elim (Result-cases (h.disk_spec config)) [
    | inr (x, bad) ↦ absurd (ground arith)
    | inl (spec, good) ↦ elim (Result-cases h.read_spec) [
      | inr (x, bad) ↦ absurd (ground arith)
      | inl (old, read) ↦ (
        spec,
        good,
        ground (arith, eq_iff old spec),
        ground (arith, eq_iff old spec, other-IsOk (h.create_datastore path) ds),
      )
    ]
  ]

  -- what the part of `open` under the lock has passed
  open_locked_lem :
      (path file : String) (r : FsRepo)
      → open_locked h path file ≡ ok r
      → (h.repo_version ≡ version current_version)
        × (h.writable ≡ none)
        × (h.load_config file ≡ ok r.config)
        × (open_datastore h r.config path ≡ ok r.ds)
        × (h.new_keystore ≡ none)
        × (r.closed ≡ false)
        × (r.path ≡ path)
  unfolding open_locked
  open_locked_lem path file r e =
      let v = checked-IsOk (check_version h.repo_version) _ e in
      let w = checked-IsOk (failing h.writable) _ v.1 in
      let c = >>=-IsOk (other (h.load_config file)) _ w.1 in
      let o = checked-IsOk (open_overrides h) _ c.2 in
      let d = >>=-IsOk (open_datastore h c.0 path) _ o.1 in
      let k = checked-IsOk (failing h.new_keystore) _ d.2 in
      let same = ok_injective k.1 in
      let conf_same : c.0 ≡ r.config = ap (λ (t : FsRepo). t.config) same in
      let ds_same : d.0 ≡ r.ds = ap (λ (t : FsRepo). t.ds) same in
      (
        check_version_lem h.repo_version v.0,
        failing-eq-none h.writable w.0,
        other-IsOk (h.load_config file) c.0 c.1 ∙ ap ok conf_same,
        ap (λ (t : OpenConfig). open_datastore h t path) (sym conf_same) ∙ d.1 ∙ ap ok ds_same,
        failing-eq-none h.new_keystore k.0,
        sym (ap (λ (t : FsRepo). t.closed) same),
        sym (ap (λ (t : FsRepo). t.path) same),
      )

  datastore_of : (r : FsRepo) → open_datastore h r.config r.path ≡ ok r.ds → HasDatastore h r
  datastore_of r e =
      let (config, found) = spec_of r.config r.path r.ds e in
      let (spec, layout, read, created) = disk_spec_of r.config r.path config r.ds found e in
      record {
        spec = spec;
        config = config;
        configured = found;
        layout = layout;
        on_disk = read;
        created = created;
      }

  check_initialized_lem :
      (path : String) → check_initialized h path ≡ none → config_is_initialized h path ≡ true
  unfolding check_initialized
  check_initialized_lem path e = ground arith

  open_locked-IsOpened :
      (rpath user_config path file : String) (r : FsRepo)
      → new_fs_repo h rpath user_config ≡ ok (path, file)
      → check_initialized h path ≡ none
      → open_locked h path file ≡ ok r
      → IsOpened h rpath user_config r
  open_locked-IsOpened rpath user_config path file r placed checked e =
      let p = open_locked_lem path file r e in
      let at : r.path ≡ path = p.6 in
      record {
        is_open = p.5;
        current = p.0;
        file = file;
        placed = placed ∙ ap (λ (t : String). ok (t, file)) (sym at);
        initialized = rw at (check_initialized_lem path checked);
        loaded = p.2;
        datastore = datastore_of r (rw at p.3);
        keystore = p.4;
        writable = p.1;
      }

  -- what the lock shows at the end of `open`
  abbrev pub LockKept : List Event × Result FsError FsRepo → String → String → Type 0
  LockKept (events, ok r) rpath user_config =
      (events ≡ locked ∷ []) × IsOpened h rpath user_config r
  LockKept (events, err e) rpath user_config = (events ≡ []) ⊎ (events ≡ unlocked ∷ locked ∷ [])

  keep_locked_lem :
      (rpath user_config path file : String) (result : Result FsError FsRepo)
      → new_fs_repo h rpath user_config ≡ ok (path, file)
      → check_initialized h path ≡ none
      → open_locked h path file ≡ result
      → LockKept (keep_locked result) rpath user_config
  unfolding keep_locked
  keep_locked_lem rpath user_config path file (ok r) placed checked e =
      (refl, open_locked-IsOpened rpath user_config path file r placed checked e)
  keep_locked_lem rpath user_config path file (err x) placed checked e = inr refl

  -- `open` that succeeds leaves the repository locked, at the version of the program, at an
  -- initialised place, with the configuration of its file and a datastore whose layout is the one
  -- on the disk; `open` that fails has not taken the lock, or has given it back.
  pub open_fs_lem :
      (rpath user_config : String) → LockKept (open_fs h rpath user_config) rpath user_config
  unfolding open_fs
  open_fs_lem rpath user_config = elim (Result-cases (new_fs_repo h rpath user_config)) [
    | inr (x, bad) ↦ rw (bad, open_fs) (inl refl)
    | inl ((path, file), placed) ↦ elim (Option-cases (check_initialized h path)) [
      | inr (x, bad) ↦ rw (placed, bad, open_fs) (inl refl)
      | inl checked ↦ elim (Option-cases (h.lock (lock_way h))) [
        | inr (x, bad) ↦ rw (placed, checked, bad, open_fs) (inl refl)
        | inl taken ↦
            rw (placed, checked, taken, open_fs)
              (keep_locked_lem rpath user_config path file (open_locked h path file) placed checked
                refl)
      ]
    ]
  ]

-- `Close` on an open repository whose datastore closes gives the lock back and removes the two
-- address files, and a second `Close` fails and does nothing. Where the datastore does not close,
-- its error is returned, and the repository is still open and locked.
pub close_unlocks :
    (c again : Closing) (r : FsRepo)
    → r.closed ≡ false
    → (c.close_datastore ≡ none
        → ((close c r).1 ≡ unlocked ∷ removed "gateway" ∷ removed "api" ∷ [])
          × (close again (close c r).0 ≡ ((close c r).0, [], some repo_closed)))
      × ((x : String)
          → c.close_datastore ≡ some x
          → close c r ≡ (r, removed "gateway" ∷ removed "api" ∷ [], some (other_error x)))
unfolding close
close_unlocks c again r is_open = (λ fine. (ground arith, ground arith), λ x bad. ground arith)
