-- ===== src/Repo/FsRepo/Creating.antt =====
-- kubo-master/repo/fsrepo/fsrepo.go: `Init`, over the three files that it writes.
mod Initial
mod Usable
mod Tests
use bock_ipfs.Base.Results.{Result, ok, err}
use bock_ipfs.Base.Int.{ℤ}
use bock_ipfs.Base.{if◌then◌else◌, String, Bool, true, false, Option, none, some}
use bock_ipfs.Repo.FsRepo.{current_version, FsError, other_error, OpenConfig}

-- A file: a write that fails half-way leaves one that is broken.
pub data File (A : Type 0) : Type 0 where
  missing : File A
  whole : A → File A
  broken : File A

-- `FileExists`
unfoldable pub exists : {A : Type 0} → File A → Bool
exists missing = false
exists (whole a) = true
exists broken = true

-- the files of a repository
pub record Files : Type 0 where
  pub config_file : File OpenConfig
  pub spec_file : File String
  pub version_file : File ℤ

-- what comes of writing a file
pub data Write : Type 0 where
  done : Write
  nothing : String → Write
  half : String → Write

unfoldable pub put_file : {A : Type 0} → Write → A → File A → File A × Option FsError
put_file done a old = (whole a, none)
put_file (nothing e) a old = (old, some (other_error e))
put_file (half e) a old = (broken, some (other_error e))

-- `WriteConfigFile`: the new file replaces the old one when it is closed, after the encoding whatever
-- came of it, and an error of that is dropped.
unfoldable pub put_config : {A : Type 0} → Write → Bool → A → File A → File A × Option FsError
unfolding put_file
put_config w renamed a old = let (f, e) = put_file w a old in if renamed then (f, e) else (old, e)

-- What the file system and the libraries answer to an `Init`: the names of the files, what comes of
-- the writes, whether the file of the configuration is put in its place, and the specification of a datastore, as a text.
pub record Creation : Type 0 where
  pub config_name : Result String String
  pub spec_name : Result String String
  pub ipfs_dir : Result String String
  pub disk_spec : String → Result String String
  pub write_config : Write
  pub renamed : Bool
  pub write_spec : Write
  pub write_version : Write

-- `AnyDatastoreConfig` and its `DiskSpec`; a map that is nil has no type
unfoldable pub layout_of : Creation → OpenConfig → Result String String
layout_of c conf = elim conf.datastore_spec [
  | none ↦ err "'type' field missing or not a string"
  | some s ↦ c.disk_spec s
]

module _ (c : Creation) where
  -- `isInitializedUnsynced`
  unfoldable pub is_initialized : Files → Bool
  unfolding exists
  is_initialized fs = elim c.config_name [ err e ↦ false | ok name ↦ exists fs.config_file ]

  -- `initConfig`
  unfoldable pub init_config : OpenConfig → Files → Files × Option FsError
  unfolding is_initialized put_config
  init_config conf fs = if is_initialized fs then (fs, none) else elim c.config_name [
    | err e ↦ (fs, some (other_error e))
    | ok name ↦
        let (f, e) = put_config c.write_config c.renamed conf fs.config_file in
        (record fs { config_file = f }, e)
  ]

  -- `initSpec`
  unfoldable pub init_spec : OpenConfig → Files → Files × Option FsError
  unfolding layout_of put_file exists
  init_spec conf fs = elim c.spec_name [
    | err e ↦ (fs, some (other_error e))
    | ok name ↦ if exists fs.spec_file then (fs, none) else elim (layout_of c conf) [
      | err e ↦ (fs, some (other_error e))
      | ok spec ↦
          let (f, e) = put_file c.write_spec spec fs.spec_file in (record fs { spec_file = f }, e)
    ]
  ]

  -- `WriteRepoVersion`
  unfoldable pub write_repo_version : ℤ → Files → Files × Option FsError
  unfolding put_file
  write_repo_version v fs = elim c.ipfs_dir [
    | err e ↦ (fs, some (other_error e))
    | ok dir ↦
        let (f, e) = put_file c.write_version v fs.version_file in
        (record fs { version_file = f }, e)
  ]

  -- `Init`
  unfoldable pub init : OpenConfig → Files → Files × Option FsError
  unfolding is_initialized init_config init_spec write_repo_version
  init conf fs =
      if is_initialized fs
      then (fs, none)
      else let (fs1, e1) = init_config conf fs in
        elim e1 [
          | some e ↦ (fs1, some e)
          | none ↦
              let (fs2, e2) = init_spec conf fs1 in
              elim e2 [ some e ↦ (fs2, some e) | none ↦ write_repo_version current_version fs2 ]
        ]
