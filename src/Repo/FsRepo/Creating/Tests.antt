-- ===== src/Repo/FsRepo/Creating/Tests.antt =====
-- Runs of `Init`, and instances of the theorems.
use bock_ipfs.Base.Results.{ok}
use bock_ipfs.Base.Int.{pos}
use bock_ipfs.Base.{str_eq, ◌≡◌, refl, ◌⊎◌, inr, true, false, none, some, [], ◌∷◌}
use bock_ipfs.Repo.FsRepo.{
  current_version, other_error, locked, OpenConfig, FsRepo, version, no_overrides_file, Host,
  open_fs,
}
use bock_ipfs.Repo.FsRepo.Creating.{
  missing, whole, exists, Files, done, nothing, Creation, is_initialized, init,
}
use bock_ipfs.Repo.FsRepo.Creating.Initial.{Placed, SpecKept, init_lem}
use bock_ipfs.Repo.FsRepo.Creating.Usable.{no_files, Agrees, open_fs-init}

abbrev conf : OpenConfig
conf = record {
  datastore_type = "";
  datastore_path = "";
  datastore_spec = some "flatfs";
  filestore_enabled = false;
  urlstore_enabled = true;
}

-- a disk on which the writes work
abbrev disk : Creation
disk = record {
  config_name = ok "/ipfs/config";
  spec_name = ok "/ipfs/datastore_spec";
  ipfs_dir = ok "/ipfs";
  disk_spec = λ t. ok t;
  write_config = done;
  renamed = true;
  write_spec = done;
  write_version = done;
}

-- one that is full before the specification is written
abbrev full_disk : Creation
full_disk = record disk { write_spec = nothing "no space left on device" }

abbrev created : Files
created = record {
  config_file = whole conf;
  spec_file = whole "flatfs";
  version_file = whole (pos 16);
}

abbrev after_failure : Files
after_failure = record no_files { config_file = whole conf }

creates : init disk conf no_files ≡ (created, none)
unfolding init
creates = refl

-- An `Init` that fails leaves the configuration, so that the next one, on a disk that works again,
-- succeeds and writes neither the specification nor the version.
half_initialized :
    (init full_disk conf no_files ≡ (after_failure, some (other_error "no space left on device")))
    × (init disk conf after_failure ≡ (after_failure, none))
unfolding init
half_initialized = (refl, refl)

-- An error of putting the configuration in its place is dropped, so `Init` succeeds without it.
config_lost :
    init (record disk { renamed = false }) conf no_files
    ≡ (record created { config_file = missing }, none)
unfolding init
config_lost = refl

init_lem_example :
    ((is_initialized disk no_files ≡ true) × (created ≡ no_files))
    ⊎ ((is_initialized disk no_files ≡ false)
        × Placed disk conf no_files.config_file created.config_file
        × (created.version_file ≡ whole current_version)
        × SpecKept disk conf no_files created)
init_lem_example = init_lem disk conf no_files created creates

-- a machine that reads what was created
abbrev host : Host
host = record {
  expand_home = λ path. ok path;
  config_filename = λ path file. ok "/ipfs/config";
  file_exists = λ file. str_eq file "/ipfs/config";
  wait_repo_lock = "";
  parse_duration = λ t. none;
  lock = λ way. none;
  repo_version = version (pos 16);
  writable = none;
  load_config = λ file. ok conf;
  read_overrides = no_overrides_file;
  disk_spec = λ t. ok t;
  read_spec = ok "flatfs";
  create_datastore = λ path. ok 3;
  new_keystore = none;
}

host-Agrees : Agrees host disk "/ipfs" "/ipfs/config" created
unfolding exists
host-Agrees = record {
  expanded = refl;
  named = refl;
  found = refl;
  versions = λ v e. cc;
  configs = λ cfg e. cc;
  specs = λ s e. cc;
  layouts = λ t. refl;
}

open_fs-init_example :
    (r : FsRepo) × (open_fs host "/ipfs" "" ≡ (locked ∷ [], ok r)) × (r.config ≡ conf) × (r.ds ≡ 3)
unfolding init
open_fs-init_example =
    open_fs-init host disk "/ipfs" "/ipfs/config" conf 3 host-Agrees
      (record {
        unlocked = refl;
        writable = refl;
        readable = inr refl;
        datastore = refl;
        keystore = refl;
      })
      refl refl refl refl
