-- ===== src/Routing/Loops.antt =====
-- kubo-master/routing/delegated.go: a router that depends on itself is never built.
use bock_ipfs.Base.Results.{Result, err}
use bock_ipfs.Base.Dict.{Dict, lookup}
use bock_ipfs.Base.{
  string_eq, length, In, ℕ, ◌<◌, String, ◌≡◌, refl, sym, subst, ◌⊎◌, inl, inr, Option, some, List,
  arith,
}
use bock_ipfs.Routing.{parse_all}
use bock_ipfs.Routing.Settings.{
  Child, RouterConfig, EntrySettings, Router, Routers, RouteError, Clients, made,
}
use bock_ipfs.Routing.Reference.{
  Builds, by_config, BuildsConfig, by_http, by_dht, by_parallel, by_sequential, BuildsAll,
  no_children, child, BuildsMethods, no_methods, method, children_of, DependsOn, LeadsTo, direct,
  further,
}
use bock_ipfs.Routing.Methods.{IsComposed, unchecked, unbuilt, composed, parse_all_lem}

module _ (routers : Dict String RouterConfig) where
  -- the first step of a chain, and what is left
  first_step :
      (a c : String)
      → LeadsTo routers a c
      → (b : String) × DependsOn routers a b × ((b ≡ c) ⊎ LeadsTo routers b c)
  first_step a c (direct d) = (c, d, inl refl)
  first_step a c (further {b = m} l d) = longer (first_step a m l)
    where
      longer :
          (b : String) × DependsOn routers a b × ((b ≡ m) ⊎ LeadsTo routers b m)
          → (b : String) × DependsOn routers a b × ((b ≡ c) ⊎ LeadsTo routers b c)
      longer (b, d0, inl e) = (b, d0, inr (direct (subst (λ z. DependsOn routers z c) (sym e) d)))
      longer (b, d0, inr l0) = (b, d0, inr (further l0 d))

  -- a loop passes through a router that depends on itself as well
  turn :
      (a : String)
      → LeadsTo routers a a
      → (b : String) × DependsOn routers a b × LeadsTo routers b b
  turn a l = turned (first_step a a l)
    where
      turned :
          (b : String) × DependsOn routers a b × ((b ≡ a) ⊎ LeadsTo routers b a)
          → (b : String) × DependsOn routers a b × LeadsTo routers b b
      turned (b, d, inl e) = (b, d, subst (λ z. LeadsTo routers z b) (sym e) (direct d))
      turned (b, d, inr l0) = (b, d, further l0 d)

  -- what a router depends on is listed in its configuration
  listed :
      (a b : String) (cfg : RouterConfig)
      → lookup a routers ≡ some cfg
      → DependsOn routers a b
      → (cr : Child) × In cr (children_of cfg) × (cr.router_name ≡ b)
  listed a b cfg found d =
      let same : d.cfg ≡ cfg = ground (arith, d.configured, found) in
      (d.child, subst (λ c. In d.child (children_of c)) same d.listed, d.named)

module _ (clients : Clients) (routers : Dict String RouterConfig) where
  mutual
    -- a router that was built does not depend on itself
    built_once : (a : String) (r : Router) → Builds clients routers a r → LeadsTo routers a a → ⊥
    built_once a r (by_config cfg found h) l =
        let (b, d, lb) = turn routers a l in
        let (cr, there, named) = listed routers a b cfg found d in
        config_once cfg r h cr there (subst (λ z. LeadsTo routers z z) (sym named) lb)

    config_once :
        (cfg : RouterConfig) (r : Router)
        → BuildsConfig clients routers cfg r
        → (cr : Child) → In cr (children_of cfg)
        → LeadsTo routers cr.router_name cr.router_name
        → ⊥
    config_once _ r (by_http endpoint batch concurrency made) cr there l = there
    config_once _ r (by_dht mode accelerated public made) cr there l = there
    config_once _ _ (by_parallel h) cr there l = all_once _ _ _ h cr there l
    config_once _ _ (by_sequential h) cr there l = all_once _ _ _ h cr there l

    all_once :
        (settings : Child → EntrySettings) (crs : List Child) (rs : Routers)
        → BuildsAll clients routers settings crs rs
        → (cr : Child) → In cr crs
        → LeadsTo routers cr.router_name cr.router_name
        → ⊥
    all_once settings _ _ no_children cr there l = there
    all_once settings _ _ (child {cr = c} {r = r} h hs) cr (inl same) l =
        built_once c.router_name r h
          (subst (λ (z : Child). LeadsTo routers z.router_name z.router_name) (sym same) l)
    all_once settings _ _ (child h hs) cr (inr there) l = all_once settings _ _ hs cr there l

  -- each router that a built one depends on is built
  member :
      (settings : Child → EntrySettings) (crs : List Child) (rs : Routers)
      → BuildsAll clients routers settings crs rs
      → (cr : Child) → In cr crs
      → (r : Router) × Builds clients routers cr.router_name r
  member settings _ _ no_children cr there = elim there [ ]
  member settings _ _ (child {cr = c} {r = r} h hs) cr (inl same) =
      (r, subst (λ (z : Child). Builds clients routers z.router_name r) same h)
  member settings _ _ (child h hs) cr (inr there) = member settings _ _ hs cr there

  config_member :
      (cfg : RouterConfig) (r : Router)
      → BuildsConfig clients routers cfg r
      → (cr : Child) → In cr (children_of cfg)
      → (r' : Router) × Builds clients routers cr.router_name r'
  config_member _ r (by_http endpoint batch concurrency made) cr there = elim there [ ]
  config_member _ r (by_dht mode accelerated public made) cr there = elim there [ ]
  config_member _ _ (by_parallel h) cr there = member _ _ _ h cr there
  config_member _ _ (by_sequential h) cr there = member _ _ _ h cr there

  step_down :
      (a b : String) (r : Router)
      → Builds clients routers a r
      → DependsOn routers a b
      → (r' : Router) × Builds clients routers b r'
  step_down a b r (by_config cfg found h) d =
      let (cr, there, named) = listed routers a b cfg found d in
      let (r', h') = config_member cfg r h cr there in
      (r', subst (λ z. Builds clients routers z r') named h')

  all_down :
      (a b : String) (r : Router)
      → Builds clients routers a r
      → LeadsTo routers a b
      → (r' : Router) × Builds clients routers b r'
  all_down a b r h (direct d) = step_down a b r h d
  all_down a b r h (further {b = m} l d) =
      let (r', h') = all_down a m r h l in step_down m b r' h' d

  method_built :
      (methods : Dict String String) (rs : Dict String Router)
      → BuildsMethods clients routers methods rs
      → (mn name : String) → In (mn, name) methods
      → (r : Router) × Builds clients routers name r
  method_built _ _ no_methods mn name there = elim there [ ]
  method_built _ _ (method {r = r} h hs) mn name (inl same) =
      (r, subst (λ (z : String × String). Builds clients routers z.1 r) same h)
  method_built _ _ (method h hs) mn name (inr there) = method_built _ _ hs mn name there

  refused :
      (methods : Dict String String) (mn name b : String)
      → In (mn, name) methods
      → LeadsTo routers name b
      → LeadsTo routers b b
      → (o : Option (Result RouteError (Dict String Router))) → IsComposed clients routers methods o
      → (x : RouteError) × (o ≡ some (err x))
  refused methods mn name b there l loop _ (unchecked {x = x} e) = (x, refl)
  refused methods mn name b there l loop _ (unbuilt {x = x} e h) = (x, refl)
  refused methods mn name b there l loop _ (composed {rs = rs} e hs) =
      let (r, h) = method_built methods rs hs mn name there in
      let (r', h') = all_down name b r h l in elim (built_once b r' h' loop) [ ]

  -- With more fuel than there are routers, `Parse` fails on every configuration in which the router of
  -- some method depends, through the lists of composed routers, on a router that depends on itself.
  pub parse_all_refuses :
      (fuel : ℕ) (methods : Dict String String) (mn name b : String)
      → length routers < fuel
      → In (mn, name) methods
      → LeadsTo routers name b
      → LeadsTo routers b b
      → (x : RouteError) × (parse_all clients routers fuel methods ≡ some (err x))
  parse_all_refuses fuel methods mn name b less there l loop =
      refused methods mn name b there l loop _ (parse_all_lem clients routers fuel methods less)
