-- ===== src/Repo/FsRepo.antt =====
-- kubo-master/repo/fsrepo/fsrepo.go: the life of a repository on the disk, `Init`, `Open` and
-- `Close`.
pub mod Settings
mod Creating
mod Opening
mod Guarding
mod Tests
use Prim.Native.Char.{code}
use bock_ipfs.Base.Results.{Result, ok, err, ◌>>=◌, ◌>>◌, checked}
use bock_ipfs.Base.Int.{ℤ, pos, negsuc, int_ltb}
use bock_ipfs.Base.{
  ◌==◌, str_eq, if◌then◌else◌, ◌+++◌, ℕ, zero, suc, String, Bool, true, false, not, ◌||◌, Option,
  none, some, List, [], ◌∷◌,
}

-- `RepoVersion`
abbrev pub current_version : ℤ
current_version = pos 16

pub data FsError : Type 0 where
  err_no_version : FsError
  err_old_repo : FsError
  err_need_migration : FsError
  no_repo : String → FsError
  program_too_low : ℤ → ℤ → FsError
  old_style_config : FsError
  no_spec : FsError
  spec_mismatch : String → String → FsError
  repo_closed : FsError
  other_error : String → FsError

-- How `open` takes the lock, by `IPFS_WAIT_REPO_LOCK`.
pub data LockWay : Type 0 where
  at_once : LockWay
  wait : LockWay
  wait_for : ℤ → LockWay

-- What happens to the lock file, and which address files are removed.
pub data Event : Type 0 where
  locked : Event
  unlocked : Event
  removed : String → Event

-- The part of the configuration that `open` reads.
pub record OpenConfig : Type 0 where
  pub datastore_type : String
  pub datastore_path : String
  pub datastore_spec : Option String
  pub filestore_enabled : Bool
  pub urlstore_enabled : Bool

-- `type FSRepo`, by what `open` fills in; the datastore is a handle.
pub record FsRepo : Type 0 where
  pub closed : Bool
  pub path : String
  pub config : OpenConfig
  pub ds : ℕ
  pub filemgr : Option (Bool × Bool)

pub data VersionFile : Type 0 where
  version : ℤ → VersionFile
  no_version_file : VersionFile
  version_failed : String → VersionFile

pub data Overrides : Type 0 where
  overrides : Overrides
  no_overrides_file : Overrides
  overrides_failed : String → Overrides

-- What the file system, the environment and the libraries answer while a repository is opened.
pub record Host : Type 0 where
  pub expand_home : String → Result String String
  pub config_filename : String → String → Result String String
  pub file_exists : String → Bool
  pub wait_repo_lock : String
  pub parse_duration : String → Option ℤ
  pub lock : LockWay → Option String
  pub repo_version : VersionFile
  pub writable : Option String
  pub load_config : String → Result String OpenConfig
  pub read_overrides : Overrides
  -- `AnyDatastoreConfig` and its `DiskSpec`, as a text
  pub disk_spec : String → Result String String
  pub read_spec : Result String String
  pub create_datastore : String → Result String ℕ
  pub new_keystore : Option String

-- the text behind a prefix
strip_prefix : String → String → Option String
strip_prefix String.[] t = some t
strip_prefix (String.◌∷◌ c p) String.[] = none
strip_prefix (String.◌∷◌ c p) (String.◌∷◌ d t) =
    let rest = strip_prefix p t in if code c == code d then rest else none

-- `strings.Replace(s, old, new, 1)`
unfoldable pub replace_first : String → String → String → String
unfolding strip_prefix
replace_first old new String.[] = String.[]
replace_first old new (String.◌∷◌ c s) =
    let rest = replace_first old new s in
    elim (strip_prefix old (String.◌∷◌ c s)) [
      | some behind ↦ new +++ behind
      | none ↦ String.◌∷◌ c rest
    ]

-- the check of the version
unfoldable pub check_version : VersionFile → Option FsError
check_version no_version_file = some err_no_version
check_version (version_failed e) = some (other_error e)
check_version (version v) =
    if int_ltb v current_version
    then some err_need_migration
    else if int_ltb current_version v
    then some (program_too_low current_version v)
    else none

-- the deferred function of `open`: unlock on an error, and leave it locked on success
unfoldable pub keep_locked : Result FsError FsRepo → List Event × Result FsError FsRepo
keep_locked (ok r) = (locked ∷ [], ok r)
keep_locked (err e) = (unlocked ∷ locked ∷ [], err e)

abbrev pub other : {A : Type 0} → Result String A → Result FsError A
other (ok a) = ok a
other (err e) = err (other_error e)

abbrev pub failing : Option String → Option FsError
failing none = none
failing (some e) = some (other_error e)

module _ (h : Host) where
  -- `configIsInitialized`
  unfoldable pub config_is_initialized : String → Bool
  config_is_initialized path = elim (h.config_filename path "") [
    | err e ↦ false
    | ok file ↦ h.file_exists file
  ]

  -- `checkInitialized`
  unfoldable pub check_initialized : String → Option FsError
  unfolding config_is_initialized
  check_initialized path =
      if config_is_initialized path
      then none
      else if config_is_initialized (replace_first ".ipfs" ".go-ipfs" path)
      then some err_old_repo
      else some (no_repo path)

  -- `newFSRepo`: the path of the repository and that of its configuration
  unfoldable pub new_fs_repo : String → String → Result FsError (String × String)
  new_fs_repo rpath user_config = elim (h.expand_home rpath) [
    | err e ↦ err (other_error e)
    | ok path ↦ elim (h.config_filename rpath user_config) [
      | err e ↦ err (other_error e)
      | ok file ↦ ok (path, file)
    ]
  ]

  -- how the lock is taken
  unfoldable pub lock_way : LockWay
  lock_way =
      if str_eq h.wait_repo_lock "" then at_once else elim (h.parse_duration h.wait_repo_lock) [
        | none ↦ at_once
        | some (pos zero) ↦ wait
        | some (pos (suc n)) ↦ wait_for (pos (suc n))
        | some (negsuc n) ↦ wait
      ]

  -- `openUserResourceOverrides`
  unfoldable pub open_overrides : Option FsError
  open_overrides = elim h.read_overrides [
    | overrides ↦ none
    | no_overrides_file ↦ none
    | overrides_failed e ↦ some (other_error e)
  ]

  -- `openDatastore`
  unfoldable pub open_datastore : OpenConfig → String → Result FsError ℕ
  open_datastore conf path =
      if not (str_eq conf.datastore_type "") || not (str_eq conf.datastore_path "")
      then err old_style_config
      else elim conf.datastore_spec [
        | none ↦ err no_spec
        | some config ↦ do
          spec ← other (h.disk_spec config)
          old_spec ← other h.read_spec
          if str_eq old_spec spec
              then other (h.create_datastore path)
              else err (spec_mismatch old_spec spec)
      ]

  -- the part of `open` that holds the lock
  unfoldable pub open_locked : String → String → Result FsError FsRepo
  unfolding check_version open_overrides
  open_locked path file = do
    checked (check_version h.repo_version)
    checked (failing h.writable)
    conf ← other (h.load_config file)
    checked open_overrides
    ds ← open_datastore conf path
    checked (failing h.new_keystore)
    ok (record {
      closed = false;
      path = path;
      config = conf;
      ds = ds;
      filemgr =
          if conf.filestore_enabled || conf.urlstore_enabled
          then some (conf.filestore_enabled, conf.urlstore_enabled)
          else none;
    })

  -- `open`, with what it does to the lock file, the last event first
  unfoldable pub open_fs : String → String → List Event × Result FsError FsRepo
  open_fs rpath user_config = elim (new_fs_repo rpath user_config) [
    | err e ↦ ([], err e)
    | ok (path, file) ↦ elim (check_initialized path) [
      | some e ↦ ([], err e)
      | none ↦ elim (h.lock lock_way) [
        | some e ↦ ([], err (other_error e))
        | none ↦ keep_locked (open_locked path file)
      ]
    ]
  ]

-- What `Close` finds: the errors of removing the two address files are only logged.
pub record Closing : Type 0 where
  pub close_datastore : Option String
  pub close_lock : Option String

-- `Close`: the repository, the events, the last one first, and the error
unfoldable pub close : Closing → FsRepo → FsRepo × List Event × Option FsError
close c r = if r.closed then (r, [], some repo_closed) else elim c.close_datastore [
  | some e ↦ (r, removed "gateway" ∷ removed "api" ∷ [], some (other_error e))
  | none ↦ (
    record r { closed = true },
    unlocked ∷ removed "gateway" ∷ removed "api" ∷ [],
    failing c.close_lock,
  )
]
