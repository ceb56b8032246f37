-- ===== src/Bootstrap/Tests.antt =====
-- Runs on small bootstrap lists, and instances of the theorems.
use bock_ipfs.Base.{
  str_eq, if◌then◌else◌, nat_eq, string_eq, contains, ℕ, String, ◌≡◌, refl, ap, ◌↔◌, true, false,
  ◌||◌, none, some, List, [], ◌∷◌, ◌++◌,
}
use bock_ipfs.Base.Results.{ok, err}
use bock_ipfs.Bootstrap.{Addresses, AddrInfo, bootstrap_add, sort_peers}
use bock_ipfs.Bootstrap.Adding.{IsDistinct, bootstrap_add_lem}
use bock_ipfs.Bootstrap.Removing.{HasAddress, is_matched, sort_peers_lem}

-- addresses are numbers, all with a transport and a last part of the code 421
abbrev plain : Addresses
plain = record {
  Multiaddr = ℕ;
  new_multiaddr = λ s. if str_eq s "" then err "empty multiaddr" else ok 1;
  split_last = λ m. (some m, some 421);
  p_p2p = 421;
  addr_eq = nat_eq;
}

abbrev old_list : List String
old_list = "/a" ∷ "/b" ∷ "/a" ∷ []

abbrev new_peers : List String
new_peers = "/c" ∷ "/b" ∷ "/c" ∷ []

-- "/b" was in the list, and is returned as added
add_run :
    bootstrap_add plain none old_list new_peers ≡ (ok ("/c" ∷ "/b" ∷ []), "/c" ∷ "/b" ∷ "/a" ∷ [])
unfolding bootstrap_add
add_run = refl

bootstrap_add_lem_example :
    ((rest : List String) × ((bootstrap_add plain none old_list new_peers).1
        ≡ ("/c" ∷ "/b" ∷ []) ++ rest))
    × IsDistinct (bootstrap_add plain none old_list new_peers).1
    × ((a : String) → contains ("/c" ∷ "/b" ∷ []) a ≡ contains new_peers a)
    × ((a : String)
        → contains (bootstrap_add plain none old_list new_peers).1 a
          ≡ contains new_peers a || contains old_list a)
bootstrap_add_lem_example =
    bootstrap_add_lem plain none old_list new_peers ("/c" ∷ "/b" ∷ []) (ap (λ p. p.0) add_run)

abbrev listed : List (AddrInfo ℕ)
listed = record { id = "x"; addrs = 1 ∷ 2 ∷ [] } ∷ record { id = "y"; addrs = 3 ∷ [] } ∷ []

sort_run : sort_peers plain (("x", 2 ∷ []) ∷ []) listed ≡ (
  record { id = "x"; addrs = 2 ∷ [] } ∷ [],
  record { id = "x"; addrs = 1 ∷ [] } ∷ record { id = "y"; addrs = 3 ∷ [] } ∷ [],
)
unfolding sort_peers
sort_run = refl

sort_peers_lem_example :
    (HasAddress plain "x" 2 (sort_peers plain (("x", 2 ∷ []) ∷ []) listed).1
      ↔ (HasAddress plain "x" 2 listed × (is_matched plain (("x", 2 ∷ []) ∷ []) "x" 2 ≡ false)))
    × (HasAddress plain "x" 2 (sort_peers plain (("x", 2 ∷ []) ∷ []) listed).0
        ↔ (HasAddress plain "x" 2 listed × (is_matched plain (("x", 2 ∷ []) ∷ []) "x" 2 ≡ true)))
sort_peers_lem_example = sort_peers_lem plain (("x", 2 ∷ []) ∷ []) listed "x" 2
