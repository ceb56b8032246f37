-- ===== src/Options/Unixfs.antt =====
-- core/coreiface/options/unixfs.go: the settings of `Add` and of `Ls`.
pub mod Steps
pub mod Resolving
mod Tests
use bock_ipfs.Base.{
  ltb, ◌==◌, if◌then◌else◌, nat_eq, string_eq, ℕ, String, Bool, true, false, not, ◌&&◌, ◌||◌,
  Option, none, List, [], ◌∷◌,
}
use bock_ipfs.Base.Results.{Result, ok, err}
use bock_ipfs.Base.Int.{ℤ, pos, negsuc, int_beq, is_positive, is_negative}

pub data Layout : Type 0 where
  balanced_layout trickle_layout : Layout

-- `UnixfsAddSettings`; `events` is the channel, if there is one, and `mtime` is in seconds of the
-- Unix time and nanoseconds.
pub record AddSettings : Type 0 where
  pub cid_version : ℤ
  pub mh_type : ℕ
  pub inline_blocks : Bool
  pub inline_limit : ℤ
  pub raw_leaves : Bool
  pub raw_leaves_set : Bool
  pub max_file_links : ℤ
  pub max_file_links_set : Bool
  pub max_directory_links : ℤ
  pub max_directory_links_set : Bool
  pub max_hamt_fanout : ℤ
  pub max_hamt_fanout_set : Bool
  pub chunker : String
  pub layout : Layout
  pub pin : Bool
  pub only_hash : Bool
  pub fs_cache : Bool
  pub no_copy : Bool
  pub events : Option ℕ
  pub silent : Bool
  pub progress : Bool
  pub preserve_mode : Bool
  pub preserve_mtime : Bool
  pub mode : ℕ
  pub mtime : ℤ × ℕ

-- the options, by the names of the functions that make them
pub data AddOption : Type 0 where
  cid_version_option : ℤ → AddOption
  hash : ℕ → AddOption
  inline : Bool → AddOption
  inline_limit_option : ℤ → AddOption
  chunker_option : String → AddOption
  layout_option : Layout → AddOption
  pin_option : Bool → AddOption
  hash_only : Bool → AddOption
  events_option : Option ℕ → AddOption
  silent_option : Bool → AddOption
  progress_option : Bool → AddOption
  fs_cache_option : Bool → AddOption
  nocopy : Bool → AddOption
  preserve_mode_option : Bool → AddOption
  preserve_mtime_option : Bool → AddOption
  mode_option : ℕ → AddOption
  raw_leaves_option : Bool → AddOption
  max_file_links_option : ℤ → AddOption
  max_directory_links_option : ℤ → AddOption
  max_hamt_fanout_option : ℤ → AddOption
  mtime_option : ℤ → ℕ → AddOption

pub data OptionError : Type 0 where
  mtime_range nocopy_requires_raw_leaves cidv0_only_sha2_256 : OptionError
  unknown_cid_version : ℤ → OptionError
  prefix_error : String → OptionError

pub apply_option : AddOption → AddSettings → Result OptionError AddSettings
apply_option (cid_version_option v) s = ok (record s { cid_version = v })
apply_option (hash v) s = ok (record s { mh_type = v })
apply_option (inline v) s = ok (record s { inline_blocks = v })
apply_option (inline_limit_option v) s = ok (record s { inline_limit = v })
apply_option (chunker_option v) s = ok (record s { chunker = v })
apply_option (layout_option v) s = ok (record s { layout = v })
apply_option (pin_option v) s = ok (record s { pin = v })
apply_option (hash_only v) s = ok (record s { only_hash = v })
apply_option (events_option v) s = ok (record s { events = v })
apply_option (silent_option v) s = ok (record s { silent = v })
apply_option (progress_option v) s = ok (record s { progress = v })
apply_option (fs_cache_option v) s = ok (record s { fs_cache = v })
apply_option (nocopy v) s = ok (record s { no_copy = v })
apply_option (preserve_mode_option v) s = ok (record s { preserve_mode = v })
apply_option (preserve_mtime_option v) s = ok (record s { preserve_mtime = v })
apply_option (mode_option v) s = ok (record s { mode = v })
apply_option (raw_leaves_option v) s = ok (record s { raw_leaves = v; raw_leaves_set = true })
apply_option (max_file_links_option v) s =
    ok (record s { max_file_links = v; max_file_links_set = true })
apply_option (max_directory_links_option v) s =
    ok (record s { max_directory_links = v; max_directory_links_set = true })
apply_option (max_hamt_fanout_option v) s =
    ok (record s { max_hamt_fanout = v; max_hamt_fanout_set = true })
apply_option (mtime_option seconds nsecs) s =
    if ltb 999999999 nsecs then err mtime_range else ok (record s { mtime = (seconds, nsecs) })

-- the loop over the options
pub apply_options : List AddOption → AddSettings → Result OptionError AddSettings
unfolding apply_option
apply_options [] s = ok s
apply_options (o ∷ opts) s = elim (apply_option o s) [
  | err e ↦ err e
  | ok s' ↦ apply_options opts s'
]

-- the instant of the zero `time.Time`, the beginning of the year 1
abbrev pub zero_time : ℤ × ℕ
zero_time = (negsuc 62135596799, 0)

pub is_zero_time : ℤ × ℕ → Bool
is_zero_time t = int_beq t.0 zero_time.0 && t.1 == zero_time.1

-- `cid.Prefix`
pub record Prefix : Type 0 where
  pub version : ℕ
  pub codec : ℕ
  pub mh_type : ℕ
  pub mh_length : ℤ

-- What the file takes from other libraries: the code of sha2-256, two defaults of the importer, and
-- the prefix of a version of CIDs.
pub record Defaults : Type 0 where
  pub sha2_256 : ℕ
  pub default_links_per_block : ℤ
  pub default_shard_width : ℤ
  pub prefix_for_cid_version : ℤ → Result String Prefix

-- nocopy needs raw blocks
pub check_nocopy : AddSettings → Result OptionError AddSettings
check_nocopy o =
    if o.no_copy && not o.raw_leaves
    then (if o.raw_leaves_set
        then err nocopy_requires_raw_leaves
        else ok (record o { raw_leaves = true }))
    else ok o

-- the three steps that cannot fail
pub settle_mtime : AddSettings → AddSettings
unfolding is_zero_time
settle_mtime o =
    if not (is_zero_time o.mtime) && o.preserve_mtime
    then record o { preserve_mtime = false }
    else o

pub settle_mode : AddSettings → AddSettings
settle_mode o =
    if not (o.mode == 0) && o.preserve_mode then record o { preserve_mode = false } else o

pub settle_leaves : AddSettings → AddSettings
settle_leaves o =
    if is_positive o.cid_version && not o.raw_leaves_set then record o { raw_leaves = true } else o

module _ (lib : Defaults) where
  open lib use {sha2_256, default_links_per_block, default_shard_width, prefix_for_cid_version}

  -- the settings that `UnixfsAddOptions` begins with
  abbrev pub initial : AddSettings
  initial = record {
    cid_version = negsuc 0;
    mh_type = sha2_256;
    inline_blocks = false;
    inline_limit = pos 32;
    raw_leaves = false;
    raw_leaves_set = false;
    max_file_links = default_links_per_block;
    max_file_links_set = false;
    max_directory_links = pos 0;
    max_directory_links_set = false;
    max_hamt_fanout = default_shard_width;
    max_hamt_fanout_set = false;
    chunker = "size-262144";
    layout = balanced_layout;
    pin = false;
    only_hash = false;
    fs_cache = false;
    no_copy = false;
    events = none;
    silent = false;
    progress = false;
    preserve_mode = false;
    preserve_mtime = false;
    mode = 0;
    mtime = zero_time;
  }

  -- a hash other than sha2-256 needs CIDv1
  pub check_version : AddSettings → Result OptionError AddSettings
  check_version o =
      if not (o.mh_type == sha2_256)
      then (if int_beq o.cid_version (pos 0)
          then err cidv0_only_sha2_256
          else if int_beq o.cid_version (pos 1) || int_beq o.cid_version (negsuc 0)
          then ok (record o { cid_version = pos 1 })
          else err (unknown_cid_version o.cid_version))
      else if is_negative o.cid_version
      then ok (record o { cid_version = pos 0 })
      else ok o

  -- the end of `UnixfsAddOptions`
  pub finish : AddSettings → Result OptionError (AddSettings × Prefix)
  finish o = elim (prefix_for_cid_version o.cid_version) [
    | err e ↦ err (prefix_error e)
    | ok prefix ↦ ok (o, record prefix { mh_type = o.mh_type; mh_length = negsuc 0 })
  ]

  -- `UnixfsAddOptions` after its loop
  pub resolve : AddSettings → Result OptionError (AddSettings × Prefix)
  unfolding check_nocopy check_version settle_mtime settle_mode settle_leaves finish
  resolve o = elim (check_nocopy o) [
    | err e ↦ err e
    | ok o1 ↦ elim (check_version o1) [
      | err e ↦ err e
      | ok o2 ↦ finish (settle_leaves (settle_mode (settle_mtime o2)))
    ]
  ]

  -- `UnixfsAddOptions`
  pub unixfs_add_options : List AddOption → Result OptionError (AddSettings × Prefix)
  unfolding apply_options resolve
  unixfs_add_options opts = elim (apply_options opts initial) [ err e ↦ err e | ok o ↦ resolve o ]

-- `UnixfsLsSettings`, its two options and `UnixfsLsOptions`; no option fails
pub record LsSettings : Type 0 where
  pub resolve_children : Bool
  pub use_cumulative_size : Bool

pub data LsOption : Type 0 where
  resolve_children_option use_cumulative_size_option : Bool → LsOption

apply_ls : List LsOption → LsSettings → LsSettings
apply_ls [] s = s
apply_ls (resolve_children_option v ∷ opts) s = apply_ls opts (record s { resolve_children = v })
apply_ls (use_cumulative_size_option v ∷ opts) s =
    apply_ls opts (record s { use_cumulative_size = v })

pub unixfs_ls_options : List LsOption → LsSettings
unfolding apply_ls
unixfs_ls_options opts =
    apply_ls opts (record { resolve_children = true; use_cumulative_size = false })
