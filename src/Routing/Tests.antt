-- ===== src/Routing/Tests.antt =====
-- Runs of the building of routers, and instances of the theorems.
use bock_ipfs.Base.Results.{ok, err}
use bock_ipfs.Base.Int.{ℤ, negsuc, pos}
use bock_ipfs.Base.Dict.{Dict, lookup, insert}
use bock_ipfs.Base.{
  str_eq, if◌then◌else◌, string_eq, ℕ, ◌+◌, String, ◌≡◌, refl, inl, inr, true, false, some, [], ◌∷◌,
  arith,
}
use bock_ipfs.Routing.{
  then_parse, parse_children, finish, then_rest, parse_config, parse, parse_methods, parse_all,
}
use bock_ipfs.Routing.Settings.{
  Child, RouterConfig, http, dht, parallel, sequential, parallel_entry, sequential_entry, Router,
  client, parallel_of, sequential_of, no_routers, entry, RouteError, method_missing,
  dependency_loop, router_not_found, Clients, http_router, dht_router, check_present,
  check_supported, check_methods,
}
use bock_ipfs.Routing.Reference.{DependsOn, direct, further}
use bock_ipfs.Routing.Methods.{IsComposed, parse_all_lem}
use bock_ipfs.Routing.Loops.{parse_all_refuses}

abbrev handle : ℤ → ℕ
handle (pos n) = n
handle (negsuc n) = 0

-- the handle tells the batch size, or the mode
abbrev clients : Clients
clients = record {
  gomaxprocs = pos 8;
  new_http = λ endpoint batch concurrency. ok (handle batch + handle concurrency);
  new_full_rt = err "no store";
  new_dht = λ public mode. ok (if str_eq mode "auto" then 1 else 2);
}

abbrev to : String → Child
to name = record {
  router_name = name;
  timeout = pos 5;
  ignore_errors = true;
  execute_after = some (pos 3);
}

abbrev all : String → Dict String String
all name =
    ("provide", name)
    ∷ ("find-peers", name)
    ∷ ("find-providers", "dht")
    ∷ ("get-ipns", "dht")
    ∷ ("put-ipns", name)
    ∷ []

-- "both" and "last" use the DHT, so the DHT is asked for more than once
abbrev shared : Dict String RouterConfig
shared =
    ("both", parallel (to "dht" ∷ to "last" ∷ []))
    ∷ ("last", sequential (to "web" ∷ to "dht" ∷ []))
    ∷ ("web", http "https://delegated" (pos 0) (pos 0))
    ∷ ("dht", dht "auto" false true)
    ∷ []

-- "b" and "c" are composed of one another
abbrev looping : Dict String RouterConfig
looping =
    ("a", parallel (to "dht" ∷ to "b" ∷ []))
    ∷ ("b", sequential (to "c" ∷ []))
    ∷ ("c", parallel (to "b" ∷ []))
    ∷ ("dht", dht "auto" false true)
    ∷ []

abbrev last : Router
last = sequential_of (
    entry (client 108) (sequential_entry (to "web"))
      (entry (client 1) (sequential_entry (to "dht")) no_routers))

abbrev both : Router
both = parallel_of (
    entry (client 1) (parallel_entry (to "dht"))
      (entry last (parallel_entry (to "last")) no_routers))

composes_shared :
    parse_all clients shared 5 (all "both")
    ≡ some (
        ok (
          ("provide", both)
          ∷ ("find-peers", both)
          ∷ ("find-providers", client 1)
          ∷ ("get-ipns", client 1)
          ∷ ("put-ipns", both)
          ∷ []))
unfolding parse_all check_methods check_present lookup check_supported parse_methods then_rest parse
    then_parse parse_config parse_children dht_router finish insert http_router
composes_shared = refl

refuses_loop : parse_all clients looping 5 (all "a") ≡ some (err (dependency_loop "b"))
unfolding parse_all check_methods check_present lookup check_supported parse_methods then_rest parse
    then_parse parse_config parse_children dht_router finish insert
refuses_loop = refl

misses_router : parse_all clients shared 5 (all "other") ≡ some (err (router_not_found "other"))
unfolding parse_all check_methods check_present lookup check_supported parse_methods then_rest parse
misses_router = refl

misses_method :
    parse_all clients shared 5 (("provide", "dht") ∷ []) ≡ some (err (method_missing "find-peers"))
unfolding parse_all check_methods check_present lookup
misses_method = refl

parse_all_lem_example :
    IsComposed clients shared (all "both") (parse_all clients shared 5 (all "both"))
parse_all_lem_example = parse_all_lem clients shared 5 (all "both") (omega arith)

b_on_c : DependsOn looping "b" "c"
unfolding lookup
b_on_c = record {
  cfg = sequential (to "c" ∷ []);
  child = to "c";
  configured = refl;
  listed = inl refl;
  named = refl;
}

c_on_b : DependsOn looping "c" "b"
unfolding lookup
c_on_b = record {
  cfg = parallel (to "b" ∷ []);
  child = to "b";
  configured = refl;
  listed = inl refl;
  named = refl;
}

a_on_b : DependsOn looping "a" "b"
unfolding lookup
a_on_b = record {
  cfg = parallel (to "dht" ∷ to "b" ∷ []);
  child = to "b";
  configured = refl;
  listed = inr (inl refl);
  named = refl;
}

parse_all_refuses_example :
    (x : RouteError) × (parse_all clients looping 5 (all "a") ≡ some (err x))
parse_all_refuses_example =
    parse_all_refuses clients looping 5 (all "a") "provide" "a" "b" (omega arith) (inl refl)
      (direct a_on_b) (further (direct b_on_c) c_on_b)
