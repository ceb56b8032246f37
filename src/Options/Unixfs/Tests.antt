-- ===== src/Options/Unixfs/Tests.antt =====
-- Runs of `UnixfsAddOptions`, and instances of its theorems.
use bock_ipfs.Base.{if◌then◌else◌, String, ◌≡◌, refl, true, List, [], ◌∷◌}
use bock_ipfs.Base.Results.{Result, ok}
use bock_ipfs.Base.Int.{ℤ, pos, negsuc, int_beq}
use bock_ipfs.Options.Unixfs.{
  AddSettings, AddOption, hash, nocopy, preserve_mtime_option, mtime_option, apply_option, Prefix,
  Defaults, initial, unixfs_add_options,
}
use bock_ipfs.Options.Unixfs.Resolving.{IsResolved, unixfs_add_options-IsResolved}

-- sha2-256 is 0x12, and both versions have a prefix
abbrev prefixes : ℤ → Result String Prefix
prefixes v = ok (record {
  version = if int_beq v (pos 0) then 0 else 1;
  codec = 0x70;
  mh_type = 0x12;
  mh_length = negsuc 0;
})

abbrev defaults : Defaults
defaults = record {
  sha2_256 = 0x12;
  default_links_per_block = pos 174;
  default_shard_width = pos 256;
  prefix_for_cid_version = prefixes;
}

-- nocopy and another hash
abbrev given : List AddOption
given = nocopy true ∷ hash 0x13 ∷ mtime_option (pos 5) 0 ∷ preserve_mtime_option true ∷ []

abbrev expected : AddSettings
expected = record (initial defaults) {
  no_copy = true;
  raw_leaves = true;
  cid_version = pos 1;
  mh_type = 0x13;
  mtime = (pos 5, 0);
}

abbrev expected_prefix : Prefix
expected_prefix = record { version = 1; codec = 0x70; mh_type = 0x13; mh_length = negsuc 0 }

given_run : unixfs_add_options defaults given ≡ ok (expected, expected_prefix)
unfolding unixfs_add_options
given_run = refl

-- a time of no nanoseconds is accepted, though the error of the check has the range begin at 1
zero_nanoseconds :
    apply_option (mtime_option (pos 5) 0) (initial defaults)
    ≡ ok (record (initial defaults) { mtime = (pos 5, 0) })
unfolding apply_option
zero_nanoseconds = refl

unixfs_add_options-IsResolved_example : IsResolved defaults expected expected_prefix
unixfs_add_options-IsResolved_example =
    unixfs_add_options-IsResolved defaults given expected expected_prefix given_run
