-- ===== src/Repo/FsRepo/Tests.antt =====
-- Runs of opening, closing and configuring a repository, and instances of the theorems.
use bock_ipfs.Base.Results.{ok}
use bock_ipfs.Base.Int.{pos}
use bock_ipfs.Base.{str_eq, ◌+++◌, String, ◌≡◌, refl, ◌≢◌, true, false, none, some}
use bock_ipfs.Repo.Common.Keys.{split}
use bock_ipfs.Repo.Common.{
  nil, leaf, object, Fields, end, field, get, put, get_loop, map_get_kv, child_of, set_loop,
  map_set_kv, map_merge_deep,
}
use bock_ipfs.Repo.Common.Setting.{Diverge}
use bock_ipfs.Repo.FsRepo.{
  err_need_migration, wait, OpenConfig, FsRepo, version, overrides, Host, replace_first,
  check_version, lock_way, open_fs, Closing,
}
use bock_ipfs.Repo.FsRepo.Opening.{LockKept, open_fs_lem}
use bock_ipfs.Repo.FsRepo.Settings.{
  check_loop, check_key, priv_key_selector, Written, written, not_written, damaged, lost, Store,
  SettingError, store_error, Settings, set_config, get_config_key, store_map, store_restored,
  restore_key, set_config_key,
}
use bock_ipfs.Repo.FsRepo.Guarding.{private_key, set_config_key_lem, Configured, set_config_lem}

abbrev conf : OpenConfig
conf = record {
  datastore_type = "";
  datastore_path = "";
  datastore_spec = some "flatfs";
  filestore_enabled = true;
  urlstore_enabled = false;
}

-- a machine on which everything is in order
abbrev host : Host
host = record {
  expand_home = λ path. ok path;
  config_filename = λ path file. ok (path +++ "/config");
  file_exists = λ file. str_eq file "/home/.ipfs/config";
  wait_repo_lock = "0";
  parse_duration = λ t. some (pos 0);
  lock = λ way. none;
  repo_version = version (pos 16);
  writable = none;
  load_config = λ file. ok conf;
  read_overrides = overrides;
  disk_spec = λ t. ok t;
  read_spec = ok "flatfs";
  create_datastore = λ path. ok 7;
  new_keystore = none;
}

old_place : replace_first ".ipfs" ".go-ipfs" "/home/.ipfs/x" ≡ "/home/.go-ipfs/x"
unfolding replace_first
old_place = refl

old_version : check_version (version (pos 15)) ≡ some err_need_migration
unfolding check_version
old_version = refl

-- a duration of 0 waits for ever
zero_waits : lock_way host ≡ wait
unfolding lock_way
zero_waits = refl

open_fs_lem_example : LockKept host (open_fs host "/home/.ipfs" "") "/home/.ipfs" ""
open_fs_lem_example = open_fs_lem host "/home/.ipfs" ""

abbrev open_repo : FsRepo
open_repo = record { closed = false; path = "/home/.ipfs"; config = conf; ds = 7; filemgr = none }

abbrev fine : Closing
fine = record { close_datastore = none; close_lock = none }

-- { "Identity": { "PrivKey": "k" }, "Port": 1 }
abbrev user_file : Fields
user_file = field "Identity" (object (field "PrivKey" (leaf "k") end)) (field "Port" (leaf "1") end)

-- A store whose configurations are the texts of ports. `what` is what comes of a write.
abbrev store : Written → Store
store what = record {
  Config = String;
  to_map = λ port. ok (field "Port" (leaf port) end);
  from_map = λ m. ok "new";
  schema = field "Identity" (object (field "PrivKey" nil end)) (field "Port" nil end);
  read_error = none;
  write = what;
}

abbrev state : Settings String
state = record { closed = false; config = "1"; file = user_file }

-- the private key cannot be overwritten
guarded :
    get_config_key
      (store written)
      (set_config_key (store written) state "Identity.PrivKey" (leaf "mine")).0
      "Identity.PrivKey"
    ≡ ok (leaf "k")
unfolding get_config_key set_config_key check_key check_loop split get put map_get_kv map_set_kv
    get_loop set_loop child_of restore_key store_restored store_map
guarded = refl

-- A write that fails leaves the new configuration in memory, and the file as it was.
config_ahead :
    (set_config_key (store (not_written "disk full")) state "Port" (leaf "2"))
    ≡ (record state { config = "new" }, some (store_error "disk full"))
unfolding set_config_key check_key check_loop split get put map_get_kv map_set_kv get_loop set_loop
    child_of restore_key store_restored store_map
config_ahead = refl

never_damaged : (e : String) (left : Fields) → written ≢ damaged e left
never_damaged e left h = cc

set_config_key_lem_example :
    let (s', e) = set_config_key (store written) state "Port" (leaf "2") in
    (private_key s'.file ≡ private_key user_file)
    × ((x : SettingError) → e ≡ some x → s'.file ≡ user_file)
    × (e ≡ none
        → written ≢ lost
        → Diverge (split priv_key_selector) (split "Port")
        → map_get_kv s'.file "Port" ≡ ok (leaf "2"))
set_config_key_lem_example =
    set_config_key_lem (store written) state "Port" (leaf "2") never_damaged

-- A file that cannot be renamed is lost, and nobody is told.
file_lost : set_config (store lost) state "2" ≡ (record state { config = "2" }, none)
unfolding set_config map_merge_deep
file_lost = refl

set_config_lem_example :
    let (s', e) = set_config (store written) state "2" in
    ((x : SettingError) → e ≡ some x → s' ≡ state)
    × (e ≡ none → (m : Fields) × Configured (store written) state "2" m s')
set_config_lem_example = set_config_lem (store written) state "2" never_damaged
