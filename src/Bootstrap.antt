-- ===== src/Bootstrap.antt =====
-- kubo-master/core/commands/bootstrap.go: adding and removing bootstrap peers, with the parsing of
-- addresses, peers and their texts of other libraries and of config/bootstrap_peers.go.
pub mod Adding
pub mod Removing
mod Tests
use bock_ipfs.Base.{
  ◌==◌, if◌then◌else◌, Eq, string_eq, contains, ℕ, String, not, Option, none, some, List, [], ◌∷◌,
  ◌++◌,
}
use bock_ipfs.Base.Results.{Result, ok, err}
use bock_ipfs.Base.Dict.{Dict, lookup, insert}

pub data BootstrapError : Type 0 where
  other_error : String → BootstrapError
  invalid_address : String → BootstrapError
  no_transport : String → BootstrapError

-- The two loops that append to the list what is not in the map yet; the map is the list itself,
-- since whatever is appended is put into it.
pub append_new : List String → List String → List String
append_new list [] = list
append_new list (s ∷ ss) = append_new (if contains list s then list else list ++ s ∷ []) ss

-- What the file takes from go-multiaddr and go-libp2p: the parsing of an address, the two parts of
-- `SplitLast` (the last one by its protocol code), the code of /p2p, and the equality of addresses.
pub record Addresses : Type 1 where
  pub Multiaddr : Type 0
  pub new_multiaddr : String → Result String Multiaddr
  pub split_last : Multiaddr → Option Multiaddr × Option ℕ
  pub p_p2p : ℕ
  pub addr_eq : Eq Multiaddr

-- `peer.AddrInfo`
pub record AddrInfo (Multiaddr : Type 0) : Type 0 where
  pub id : String
  pub addrs : List Multiaddr

module _ (lib : Addresses) where
  open lib use {Multiaddr, new_multiaddr, split_last, p_p2p, addr_eq}

  -- one round of the first loop of `bootstrapAdd`
  check_peer : String → Option BootstrapError
  check_peer p = elim (new_multiaddr p) [
    | err e ↦ some (other_error e)
    | ok m ↦
        let (tpt, p2ppart) = split_last m in
        elim p2ppart [
          | none ↦ some (invalid_address p)
          | some code ↦
              if not (code == p_p2p)
              then some (invalid_address p)
              else elim tpt [ none ↦ some (no_transport p) | some t ↦ none ]
        ]
  ]

  pub check_peers : List String → Option BootstrapError
  unfolding check_peer
  check_peers [] = none
  check_peers (p ∷ ps) =
      let rest = check_peers ps in elim (check_peer p) [ some e ↦ some e | none ↦ rest ]

  -- `bootstrapAdd`: what it returns and the bootstrap list that `cfg` holds afterwards; `set_config`
  -- is the error of `SetConfig`.
  pub bootstrap_add :
      Option String → List String → List String → Result BootstrapError (List String) × List String
  unfolding check_peers append_new
  bootstrap_add set_config bootstrap peers = elim (check_peers peers) [
    | some e ↦ (err e, bootstrap)
    | none ↦
        let added = append_new [] peers in
        let all = append_new added bootstrap in
        elim set_config [ some e ↦ (err (other_error e), all) | none ↦ (ok added, all) ]
  ]

  -- the map from the peers to the addresses to remove
  pub remove_map :
      Dict String (List Multiaddr) → List (AddrInfo Multiaddr) → Dict String (List Multiaddr)
  unfolding insert
  remove_map m [] = m
  remove_map m (addr ∷ rest) = remove_map (insert addr.id addr.addrs m) rest

  -- the inner loops: the addresses that are kept and those that are removed
  kept_of : List Multiaddr → List Multiaddr → List Multiaddr
  kept_of addrs [] = []
  kept_of addrs (a ∷ rest) =
      let others = kept_of addrs rest in
      if contains ⦃e = addr_eq⦄ addrs a then others else a ∷ others

  removed_of : List Multiaddr → List Multiaddr → List Multiaddr
  removed_of addrs [] = []
  removed_of addrs (a ∷ rest) =
      let others = removed_of addrs rest in
      if contains ⦃e = addr_eq⦄ addrs a then a ∷ others else others

  -- `append`, where there is an address
  if_any : String → List Multiaddr → List (AddrInfo Multiaddr)
  if_any id [] = []
  if_any id (a ∷ addrs) = record { id = id; addrs = a ∷ addrs } ∷ []

  -- The outer loop of `bootstrapRemove`: the peers that are removed and those that are kept.
  pub sort_peers :
      Dict String (List Multiaddr)
      → List (AddrInfo Multiaddr)
      → List (AddrInfo Multiaddr) × List (AddrInfo Multiaddr)
  unfolding lookup kept_of removed_of if_any
  sort_peers m [] = ([], [])
  sort_peers m (p ∷ peers) =
      let (removed, keep) = sort_peers m peers in
      elim (lookup p.id m) [
        | none ↦ (removed, p ∷ keep)
        | some [] ↦ (p ∷ removed, keep)
        | some (a ∷ addrs) ↦ (
          if_any p.id (removed_of (a ∷ addrs) p.addrs) ++ removed,
          if_any p.id (kept_of (a ∷ addrs) p.addrs) ++ keep,
        )
      ]

  -- `bootstrapRemove`: what it returns and the bootstrap list that `cfg` holds afterwards, with the
  -- parsing and the printing of lists of peers
  pub bootstrap_remove :
      (List String → Result String (List (AddrInfo Multiaddr)))
      → (List (AddrInfo Multiaddr) → List String)
      → Option String
      → List String
      → List String
      → Result BootstrapError (List String) × List String
  unfolding remove_map sort_peers
  bootstrap_remove parse show set_config bootstrap to_remove = elim (parse to_remove) [
    | err e ↦ (err (other_error e), bootstrap)
    | ok addrs ↦ elim (parse bootstrap) [
      | err e ↦ (err (other_error e), bootstrap)
      | ok peers ↦
          let (removed, keep) = sort_peers (remove_map [] addrs) peers in
          elim set_config [
            | some e ↦ (err (other_error e), show keep)
            | none ↦ (ok (show removed), show keep)
          ]
    ]
  ]

  -- `bootstrapRemoveAll`
  pub bootstrap_remove_all :
      (List String → Result String (List (AddrInfo Multiaddr)))
      → (List (AddrInfo Multiaddr) → List String)
      → Option String
      → List String
      → Result BootstrapError (List String) × List String
  bootstrap_remove_all parse show set_config bootstrap = elim (parse bootstrap) [
    | err e ↦ (err (other_error e), bootstrap)
    | ok removed ↦ elim set_config [
      | some e ↦ (err (other_error e), [])
      | none ↦ (ok (show removed), [])
    ]
  ]
