-- ===== src/Routing/Methods.antt =====
-- kubo-master/routing/delegated.go: `Parse` over all the methods.
use bock_ipfs.Base.Results.{Result, ok, err}
use bock_ipfs.Base.Dict.{Dict, lookup}
use bock_ipfs.Base.{
  Option-cases, string_eq, length, ℕ, ◌≤◌, ◌<◌, String, ◌≡◌, sym, subst, inl, inr, Option, none,
  some, List, [], ◌∷◌, arith,
}
use bock_ipfs.Routing.{Progress, Parsed, then_rest, parse, parse_methods, parse_all}
use bock_ipfs.Routing.Settings.{RouterConfig, Router, RouteError, Clients, check_methods}
use bock_ipfs.Routing.Reference.{Builds, BuildsMethods, no_methods, method, Justified}
use bock_ipfs.Routing.Termination.{pending}
use bock_ipfs.Routing.Building.{Leaves}
use bock_ipfs.Routing.Calls.{parse_lem}

pub pending-length :
    {V : Type 0} (visited : List String) (m : List (String × V)) → pending visited m ≤ length m
pending-length visited [] = omega arith
pending-length visited ((k, v) ∷ m) = ground (arith, pending-length visited m)

-- What `Parse` may return: never nothing; the error of `Check`, or one that the configuration
-- justifies; or for every method the router that its name stands for.
pub data IsComposed (clients : Clients) (routers : Dict String RouterConfig)
    (methods : Dict String String) : Option (Result RouteError (Dict String Router)) → Type 0 where
  unchecked :
      {x : RouteError}
      → check_methods methods ≡ some x
      → IsComposed clients routers methods (some (err x))
  unbuilt :
      {x : RouteError}
      → check_methods methods ≡ none
      → Justified routers x
      → IsComposed clients routers methods (some (err x))
  composed :
      {rs : Dict String Router}
      → check_methods methods ≡ none
      → BuildsMethods clients routers methods rs
      → IsComposed clients routers methods (some (ok rs))

-- the claim `Q` of a result, `E` of an error, and that there is one of them
abbrev Settles :
    {A : Type 0} → (A → Type 0) → (RouteError → Type 0) → Option (Result RouteError A) → Type 0
Settles Q E none = ⊥
Settles Q E (some (err x)) = E x
Settles Q E (some (ok a)) = Q a

then_rest-Settles :
    {A B : Type 0} (Q : A → Type 0) (Q' : B → Type 0) (E : RouteError → Type 0)
    (r : Option (Result RouteError A)) (next : A → Option (Result RouteError B))
    → Settles Q E r
    → ((a : A) → Q a → Settles Q' E (next a))
    → Settles Q' E (then_rest r next)
unfolding then_rest
then_rest-Settles Q Q' E none next h rest = h
then_rest-Settles Q Q' E (some (err x)) next h rest = h
then_rest-Settles Q Q' E (some (ok a)) next h rest = rest a h

module _ (clients : Clients) (routers : Dict String RouterConfig) where
  parse_methods_lem :
      (fuel : ℕ) (created : Dict String Router) (methods : Dict String String)
      → length routers < fuel
      → ((name : String) (r : Router)
          → lookup name created ≡ some r
          → Builds clients routers name r)
      → Settles
          (BuildsMethods clients routers methods)
          (Justified routers)
          (parse_methods clients routers fuel created methods)
  unfolding parse_methods
  parse_methods_lem fuel created [] less built = no_methods
  parse_methods_lem fuel created ((mn, name) ∷ methods) less built =
      let p : Progress = record { visited = []; created = created } in
      let pr : Parsed Router = parse clients routers fuel p name in
      then_rest-Settles (Leaves clients routers p (Builds clients routers name) pr.0)
        (BuildsMethods clients routers ((mn, name) ∷ methods)) _ pr.1 _
        (parse_lem clients routers fuel p name (ground (arith, pending-length [] routers)) built
          λ k w. (let seen = w.seen in cc))
        λ router l.
          then_rest-Settles (BuildsMethods clients routers methods)
            (BuildsMethods clients routers ((mn, name) ∷ methods)) _
            (parse_methods clients routers fuel pr.0.created methods) _
            (parse_methods_lem fuel pr.0.created methods less l.built) λ rest h. method l.result h

  settled :
      (methods : Dict String String) (o : Option (Result RouteError (Dict String Router)))
      → check_methods methods ≡ none
      → Settles (BuildsMethods clients routers methods) (Justified routers) o
      → IsComposed clients routers methods o
  settled methods none passed h = elim h [ ]
  settled methods (some (err x)) passed h = unbuilt passed h
  settled methods (some (ok rs)) passed h = composed passed h

  -- With more fuel than there are routers in the configuration, `Parse` returns. It either refuses
  -- the methods with the error of `Check`; or it fails with an error that the configuration
  -- justifies: a dependency loop is told of only for a router that depends on itself through the
  -- lists of composed routers, a missing router only for a name without a configuration, and a
  -- missing endpoint, a wrong mode and an unknown type only where a router has them; or it gives
  -- every method the router that its name stands for, at any depth.
  pub parse_all_lem :
      (fuel : ℕ) (methods : Dict String String)
      → length routers < fuel
      → IsComposed clients routers methods (parse_all clients routers fuel methods)
  unfolding parse_all lookup
  parse_all_lem fuel methods less = elim (Option-cases (check_methods methods)) [
    | inr (x, e) ↦
        let step : parse_all clients routers fuel methods ≡ some (err x) = ground arith in
        subst (λ o. IsComposed clients routers methods o) (sym step) (unchecked e)
    | inl e ↦
        let step : parse_all clients routers fuel methods
            ≡ parse_methods clients routers fuel [] methods =
          ground arith in
        subst (λ o. IsComposed clients routers methods o) (sym step)
          (settled methods _ e (parse_methods_lem fuel [] methods less λ name r there. cc))
  ]
