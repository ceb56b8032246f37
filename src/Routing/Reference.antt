-- ===== src/Routing/Reference.antt =====
-- kubo-master/routing/delegated.go: which router a configuration stands for, and which routers depend
-- on one another.
use bock_ipfs.Base.Results.{ok}
use bock_ipfs.Base.Int.{ℤ}
use bock_ipfs.Base.Dict.{Dict, lookup}
use bock_ipfs.Base.{string_eq, In, String, ◌≡◌, Bool, false, none, some, List, [], ◌∷◌}
use bock_ipfs.Routing.Settings.{
  Child, RouterConfig, http, dht, parallel, sequential, unknown_type, EntrySettings, parallel_entry,
  sequential_entry, Router, parallel_of, sequential_of, Routers, no_routers, entry, RouteError,
  method_missing, method_unsupported, dependency_loop, router_not_found, type_unknown, param_needed,
  invalid_dht_mode, client_failed, Clients, http_router, dht_router,
}

-- The configuration stands for the router, at any depth.
mutual
  pub data Builds (clients : Clients) (routers : Dict String RouterConfig)
      : String → Router → Type 0 where
    by_config :
        {name : String} {r : Router} (cfg : RouterConfig)
        → lookup name routers ≡ some cfg
        → BuildsConfig clients routers cfg r
        → Builds clients routers name r

  pub data BuildsConfig (clients : Clients) (routers : Dict String RouterConfig)
      : RouterConfig → Router → Type 0 where
    by_http :
        {r : Router} (endpoint : String) (batch concurrency : ℤ)
        → http_router clients endpoint batch concurrency ≡ ok r
        → BuildsConfig clients routers (http endpoint batch concurrency) r
    by_dht :
        {r : Router} (mode : String) (accelerated public : Bool)
        → dht_router clients mode accelerated public ≡ ok r
        → BuildsConfig clients routers (dht mode accelerated public) r
    by_parallel :
        {crs : List Child} {rs : Routers}
        → BuildsAll clients routers parallel_entry crs rs
        → BuildsConfig clients routers (parallel crs) (parallel_of rs)
    by_sequential :
        {crs : List Child} {rs : Routers}
        → BuildsAll clients routers sequential_entry crs rs
        → BuildsConfig clients routers (sequential crs) (sequential_of rs)

  pub data BuildsAll (clients : Clients) (routers : Dict String RouterConfig)
      : (Child → EntrySettings) → List Child → Routers → Type 0 where
    no_children :
        {settings : Child → EntrySettings} → BuildsAll clients routers settings [] no_routers
    child :
        {settings : Child → EntrySettings} {cr : Child} {crs : List Child} {r : Router}
        {rs : Routers}
        → Builds clients routers cr.router_name r
        → BuildsAll clients routers settings crs rs
        → BuildsAll clients routers settings (cr ∷ crs) (entry r (settings cr) rs)

-- the routers of the methods, each with what its name stands for
pub data BuildsMethods (clients : Clients) (routers : Dict String RouterConfig)
    : Dict String String → Dict String Router → Type 0 where
  no_methods : BuildsMethods clients routers [] []
  method :
      {mn name : String} {r : Router} {methods : Dict String String} {rs : Dict String Router}
      → Builds clients routers name r
      → BuildsMethods clients routers methods rs
      → BuildsMethods clients routers ((mn, name) ∷ methods) ((mn, r) ∷ rs)

-- the routers that a router is composed of
abbrev pub children_of : RouterConfig → List Child
children_of (parallel crs) = crs
children_of (sequential crs) = crs
children_of _ = []

-- one router is composed of another
pub record DependsOn (routers : Dict String RouterConfig) (a b : String) : Type 0 where
  pub cfg : RouterConfig
  pub child : Child
  pub configured : lookup a routers ≡ some cfg
  pub listed : In child (children_of cfg)
  pub named : child.router_name ≡ b

-- through one or more steps
pub data LeadsTo (routers : Dict String RouterConfig) (a : String) : String → Type 0 where
  direct : {b : String} → DependsOn routers a b → LeadsTo routers a b
  further : {b c : String} → LeadsTo routers a b → DependsOn routers b c → LeadsTo routers a c

-- What the configuration has that an error of `parse` tells of.
abbrev pub Justified : Dict String RouterConfig → RouteError → Type 0
Justified routers (dependency_loop name) = LeadsTo routers name name
Justified routers (router_not_found name) = lookup name routers ≡ none
Justified routers (type_unknown t) = (name : String) × (lookup name routers ≡ some (unknown_type t))
Justified routers (param_needed param) =
    (name : String) × (batch : ℤ) × (concurrency : ℤ) × (lookup name routers
      ≡ some (http "" batch concurrency))
Justified routers (invalid_dht_mode mode) =
    (name : String) × (public : Bool) × (lookup name routers ≡ some (dht mode false public))
Justified routers (client_failed e) = Unit
Justified routers (method_missing mn) = ⊥
Justified routers (method_unsupported mn) = ⊥
