-- ===== src/Repo/Migrations.antt =====
-- kubo-master/repo/fsrepo/migrations/migrations.go: finding, fetching and running the migrations
-- that take a repository from one version to another.
pub mod Versions
pub mod Finding
mod Fetchers
pub mod Listing
pub mod Fetching
pub mod Binaries
pub mod Running
pub mod Refusing
mod Tests
use bock_ipfs.Base.{
  ltb, str_eq, if◌then◌else◌, string_eq, length, is_empty, ℕ, zero, suc, String, Bool, not, ◌&&◌,
  Option, none, some, List, [], ◌∷◌, ◌++◌,
}
use bock_ipfs.Base.Results.{Result, ok, err}
use bock_ipfs.Base.Int.{ℤ, int_beq}
use bock_ipfs.Base.Dict.{Dict, lookup, insert, has_key}
use bock_ipfs.Repo.Migrations.Versions.{
  int_succ, int_pred, int_lt, distance, Migration, migration_eq,
}

pub data MigrationError : Type 0 where
  ipfs_dir_error version_error mkdir_error ctx_error os_error : String → MigrationError
  downgrade_not_allowed : ℤ → ℤ → MigrationError
  musl_not_supported : MigrationError
  failed_to_download : List Migration → MigrationError
  -- the same, with the error of the context before it
  download_stopped : String → List Migration → MigrationError
  migration_failed : Migration → String → MigrationError

-- The name that `migrationName` makes of the two versions of one step from `cur`.
pub migration_at : Bool → ℤ → Migration
migration_at down cur =
    if down
    then record { from = int_pred cur; to = cur }
    else record { from = cur; to = int_succ cur }

-- `cur += step`
pub next : Bool → ℤ → ℤ
next down cur = if down then int_pred cur else int_succ cur

-- `binPaths[migName] = bin` where the search found a binary
pub record_path : Migration → Option String → Dict Migration String → Dict Migration String
unfolding insert
record_path name none bins = bins
record_path name (some bin) bins = insert name bin bins

module _ (look_path : Migration → Option String) (ctx_err : ℤ → Option String) where
  -- The loop of `findMigrations`, with none when the fuel is used up before `cur` is `to`;
  -- `look_path` is `exec.LookPath`, and `ctx_err cur` the error of the context in that round.
  pub find_loop :
      ℕ
      → Bool
      → ℤ
      → ℤ
      → List Migration
      → Dict Migration String
      → Option (Result MigrationError (List Migration × Dict Migration String))
  unfolding record_path migration_at next
  find_loop zero down cur to migrations bins =
      if int_beq cur to then some (ok (migrations, bins)) else none
  find_loop (suc fuel) down cur to migrations bins =
      let name = migration_at down cur in
      let rest =
        find_loop fuel down (next down cur) to (migrations ++ name ∷ [])
          (record_path name (look_path name) bins) in
      if int_beq cur to
      then some (ok (migrations, bins))
      else elim (ctx_err cur) [ some e ↦ some (err (ctx_error e)) | none ↦ rest ]

  -- `findMigrations`; the fuel is the number of the steps, `count`
  pub find_migrations :
      ℤ → ℤ → Option (Result MigrationError (List Migration × Dict Migration String))
  unfolding find_loop
  find_migrations from to = find_loop (distance from to) (int_lt to from) from to [] []

-- the loop that gathers the names for which no binary was found
pub missing_of : Dict Migration String → List Migration → List Migration
unfolding has_key
missing_of bins [] = []
missing_of bins (m ∷ ms) =
    let rest = missing_of bins ms in if has_key m bins then rest else m ∷ rest

-- the error of `fetchMigrations` for what failed, by the context's error
download_error : Option String → List Migration → MigrationError
download_error none fails = failed_to_download fails
download_error (some e) fails = download_stopped e fails

-- `fetchMigrations`: every name is fetched, by goroutines that each write their own place of the
-- result; a fetch that fails leaves its place empty. `osv` is the variant of the system.
failed_of : (Migration → Option String) → List Migration → List Migration
failed_of fetch [] = []
failed_of fetch (m ∷ ms) =
    let rest = failed_of fetch ms in elim (fetch m) [ none ↦ m ∷ rest | some bin ↦ rest ]

-- `binPaths[missing[i]] = fetched[i]`
pub add_fetched :
    (Migration → Option String) → List Migration → Dict Migration String → Dict Migration String
unfolding insert
add_fetched fetch [] bins = bins
add_fetched fetch (m ∷ ms) bins = elim (fetch m) [
  | none ↦ add_fetched fetch ms bins
  | some bin ↦ add_fetched fetch ms (insert m bin bins)
]

pub fetch_missing :
    Result String String
    → Option String
    → (Migration → Option String)
    → List Migration
    → Dict Migration String
    → Result MigrationError (Dict Migration String)
unfolding failed_of add_fetched download_error
fetch_missing (err e) ended fetch missing bins = err (os_error e)
fetch_missing (ok osv) ended fetch missing bins =
    if str_eq osv "linux-musl"
    then err musl_not_supported
    else (let fails = failed_of fetch missing in
        if is_empty fails
        then ok (add_fetched fetch missing bins)
        else err (download_error ended fails))

-- What `RunMigration` meets: the search path, the context, also after the fetches, the fetcher, the variant of the system,
-- the error of `os.MkdirTemp`, and the running of a binary on the directory, forwards or with
-- `-revert`.
pub record Machine (Dir : Type 0) : Type 0 where
  pub look_path : Migration → Option String
  pub ctx_err : ℤ → Option String
  pub fetch : Migration → Option String
  pub fetch_ended : Option String
  pub osv : Result String String
  pub mkdir_temp : Option String
  pub check_dir : Dir → Option String
  pub repo_version : Dir → Result String ℤ
  pub run : Dir → Option String → Bool → Dir × Option String

module _ {Dir : Type 0} (w : Machine Dir) where
  open w use {look_path, ctx_err, fetch, fetch_ended, osv, mkdir_temp, check_dir, repo_version, run}

  -- the loop that runs the migrations
  pub run_all : Dict Migration String → Bool → Dir → List Migration → Dir × Option MigrationError
  unfolding lookup
  run_all bins revert dir [] = (dir, none)
  run_all bins revert dir (m ∷ ms) =
      let (dir', e) = run dir (lookup m bins) revert in
      let rest = run_all bins revert dir' ms in
      elim e [ some x ↦ (dir', some (migration_failed m x)) | none ↦ rest ]

  -- the download of what was not found
  pub complete :
      List Migration → Dict Migration String → Result MigrationError (Dict Migration String)
  unfolding missing_of fetch_missing
  complete migrations bins =
      if ltb (length bins) (length migrations)
      then elim mkdir_temp [
        | some e ↦ err (mkdir_error e)
        | none ↦ fetch_missing osv fetch_ended fetch (missing_of bins migrations) bins
      ]
      else ok bins

  pub migrate :
      ℤ
      → ℤ
      → Dir
      → Result MigrationError (List Migration × Dict Migration String)
      → Dir × Option MigrationError
  unfolding complete run_all
  migrate from target dir (err e) = (dir, some e)
  migrate from target dir (ok (migrations, bins)) = elim (complete migrations bins) [
    | err e ↦ (dir, some e)
    | ok bins' ↦ run_all bins' (int_lt target from) dir migrations
  ]

  -- `RunMigration` once the version is known
  pub run_from : ℤ → Bool → Dir → Result String ℤ → Option (Dir × Option MigrationError)
  unfolding find_migrations migrate
  run_from target allow_downgrade dir (err e) = some (dir, some (version_error e))
  run_from target allow_downgrade dir (ok from) =
      if int_beq from target
      then some (dir, none)
      else if int_lt target from && not allow_downgrade
      then some (dir, some (downgrade_not_allowed from target))
      else elim (find_migrations look_path ctx_err from target) [
        | none ↦ none
        | some found ↦ some (migrate from target dir found)
      ]

  -- `RunMigration` on the directory that `CheckIpfsDir` accepts, with none when the fuel of the
  -- search runs out, which `run_migration_refuses` excludes
  pub run_migration : ℤ → Bool → Dir → Option (Dir × Option MigrationError)
  unfolding run_from
  run_migration target allow_downgrade dir = elim (check_dir dir) [
    | some e ↦ some (dir, some (ipfs_dir_error e))
    | none ↦ run_from target allow_downgrade dir (repo_version dir)
  ]
