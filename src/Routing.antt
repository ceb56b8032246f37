-- ===== src/Routing.antt =====
-- kubo-master/routing/delegated.go: the routers of the configuration are built, each after those
-- that it is composed of. Settings has what a configuration says, and this file the building.
pub mod Settings
mod Reference
mod Termination
mod Errors
mod Building
mod Calls
mod Methods
mod Loops
mod Tests
use bock_ipfs.Base.Results.{Result, ok, err}
use bock_ipfs.Base.Dict.{Dict, lookup, insert}
use bock_ipfs.Base.{
  string_eq, contains, ℕ, zero, suc, String, true, false, Option, none, some, List, [], ◌∷◌,
}
use bock_ipfs.Routing.Settings.{
  Child, RouterConfig, http, dht, parallel, sequential, unknown_type, EntrySettings, parallel_entry,
  sequential_entry, Router, parallel_of, sequential_of, Routers, no_routers, entry, RouteError,
  dependency_loop, router_not_found, type_unknown, Clients, http_router, dht_router, check_methods,
}

-- What `parse` shares between its calls: the names in `visited` and `createdRouters`.
pub record Progress : Type 0 where
  pub visited : List String
  pub created : Dict String Router

-- the result of a call, `none` if the fuel ran out
abbrev pub Parsed : Type 0 → Type 0
Parsed A = Progress × Option (Result RouteError A)

-- what an earlier result leaves of the rest
unfoldable pub then_parse : {A B : Type 0} → Parsed A → (Progress → A → Parsed B) → Parsed B
then_parse (p, none) next = (p, none)
then_parse (p, some (err x)) next = (p, some (err x))
then_parse (p, some (ok a)) next = next p a

-- The loop over the routers of a composed one, with the recursive call as an argument.
unfoldable pub parse_children :
    (Progress → String → Parsed Router)
    → (Child → EntrySettings)
    → Progress
    → List Child
    → Parsed Routers
parse_children parse settings p [] = (p, some (ok no_routers))
parse_children parse settings p (cr ∷ crs) = then_parse (parse p cr.router_name) λ p1 ri.
    then_parse (parse_children parse settings p1 crs)
      λ p2 rest. (p2, some (ok (entry ri (settings cr) rest)))

-- `createdRouters[routerName] = router`
unfoldable pub finish : String → Progress → Router → Parsed Router
finish name p router = (record p { created = insert name router p.created }, some (ok router))

-- what an error of one method leaves of the rest
unfoldable pub then_rest :
    {A B : Type 0}
    → Option (Result RouteError A)
    → (A → Option (Result RouteError B))
    → Option (Result RouteError B)
then_rest none next = none
then_rest (some (err x)) next = some (err x)
then_rest (some (ok a)) next = next a

module _ (clients : Clients) (routers : Dict String RouterConfig) where
  -- the switch over the type of a router
  unfoldable pub parse_config :
      (Progress → String → Parsed Router) → Progress → RouterConfig → Parsed Router
  parse_config parse p (http endpoint batch concurrency) =
      (p, some (http_router clients endpoint batch concurrency))
  parse_config parse p (dht mode accelerated public) =
      (p, some (dht_router clients mode accelerated public))
  parse_config parse p (parallel crs) =
      then_parse (parse_children parse parallel_entry p crs)
        λ p' rs. (p', some (ok (parallel_of rs)))
  parse_config parse p (sequential crs) =
      then_parse (parse_children parse sequential_entry p crs)
        λ p' rs. (p', some (ok (sequential_of rs)))
  parse_config parse p (unknown_type t) = (p, some (err (type_unknown t)))

  -- `parse`
  unfoldable pub parse : ℕ → Progress → String → Parsed Router
  parse zero p name = (p, none)
  parse (suc fuel) p name = elim (lookup name p.created) [
    | some r ↦ (p, some (ok r))
    | none ↦ elim (contains p.visited name) [
      | true ↦ (p, some (err (dependency_loop name)))
      | false ↦
          let p' : Progress = record p { visited = name ∷ p.visited } in
          elim (lookup name routers) [
            | none ↦ (p', some (err (router_not_found name)))
            | some cfg ↦
                then_parse (parse_config (λ q n. parse fuel q n) p' cfg) λ p'' r. finish name p'' r
          ]
    ]
  ]

  -- the loop of `Parse` over the methods; every method has a `visited` of its own
  unfoldable pub parse_methods :
      ℕ → Dict String Router → Dict String String → Option (Result RouteError (Dict String Router))
  parse_methods fuel created [] = some (ok [])
  parse_methods fuel created ((method, name) ∷ methods) =
      let (p, r) = parse fuel (record { visited = []; created = created }) name in
      then_rest r λ router.
        then_rest (parse_methods fuel p.created methods) λ rest. some (ok ((method, router) ∷ rest))

  -- `Parse`: the composer as the router of every method
  unfoldable pub parse_all :
      ℕ → Dict String String → Option (Result RouteError (Dict String Router))
  parse_all fuel methods = elim (check_methods methods) [
    | some x ↦ some (err x)
    | none ↦ parse_methods fuel [] methods
  ]
