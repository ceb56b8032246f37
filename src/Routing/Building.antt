-- ===== src/Routing/Building.antt =====
-- kubo-master/routing/delegated.go: what the loop over the children and the switch over the type leave,
-- when the calls of `parse` below are right.
use bock_ipfs.Base.Results.{Result, ok, err}
use bock_ipfs.Base.Dict.{Dict, lookup}
use bock_ipfs.Base.{
  string_eq, contains, In, ℕ, ◌<◌, String, ◌≡◌, refl, inl, inr, true, none, some, List, [], ◌∷◌,
  arith,
}
use bock_ipfs.Routing.{Progress, Parsed, then_parse, parse_children, parse_config}
use bock_ipfs.Routing.Reference.{
  Builds, BuildsConfig, by_http, by_dht, by_parallel, by_sequential, BuildsAll, no_children, child,
  children_of, LeadsTo, Justified,
}
use bock_ipfs.Routing.Termination.{pending, pending-le}
use bock_ipfs.Routing.Settings.{
  Child, RouterConfig, http, dht, parallel, sequential, unknown_type, EntrySettings, parallel_entry,
  sequential_entry, Router, RouteError, Clients,
}
use bock_ipfs.Routing.Errors.{Fails, http_router-Fails, dht_router-Fails}

-- the claim `Q` of a result, `E` of an error, and that there is one of them
abbrev pub Ensures :
    {A : Type 0} → (Progress → A → Type 0) → (RouteError → Type 0) → Parsed A → Type 0
Ensures Q E (p, none) = ⊥
Ensures Q E (p, some (err x)) = E x
Ensures Q E (p, some (ok a)) = Q p a

pub then_parse-Ensures :
    {A B : Type 0} (Q : Progress → A → Type 0) (Q' : Progress → B → Type 0)
    (E : RouteError → Type 0) (r : Parsed A) (next : Progress → A → Parsed B)
    → Ensures Q E r
    → ((p : Progress) (a : A) → Q p a → Ensures Q' E (next p a))
    → Ensures Q' E (then_parse r next)
unfolding then_parse
then_parse-Ensures Q Q' E (p, none) next h rest = h
then_parse-Ensures Q Q' E (p, some (err x)) next h rest = h
then_parse-Ensures Q Q' E (p, some (ok a)) next h rest = rest p a h

-- a router that is being built: visited, and not created
pub record Waits (p : Progress) (name : String) : Type 0 where
  pub seen : contains p.visited name ≡ true
  pub missing : lookup name p.created ≡ none

-- from the state before a call to the one after it
pub record Grows (p p' : Progress) : Type 0 where
  pub keeps : (k : String) → contains p.visited k ≡ true → contains p'.visited k ≡ true
  pub back : (k : String) → Waits p' k → Waits p k

pub grow_refl : (p : Progress) → Grows p p
grow_refl p = record { keeps = λ k h. h; back = λ k h. h }

pub grow_trans : {p p' p'' : Progress} → Grows p p' → Grows p' p'' → Grows p p''
grow_trans g h = record {
  keeps = λ k there. h.keeps k (g.keeps k there);
  back = λ k there. g.back k (h.back k there);
}

module _ (clients : Clients) (routers : Dict String RouterConfig) where
  -- what was created is what the configuration stands for
  abbrev pub IsBuilt : Progress → Type 0
  IsBuilt p =
      (name : String) (r : Router) → lookup name p.created ≡ some r → Builds clients routers name r

  -- a result, in the state after it
  pub record Leaves (p : Progress) {A : Type 0} (stands : A → Type 0) (p' : Progress) (a : A)
      : Type 0 where
    pub result : stands a
    pub built : IsBuilt p'
    pub grows : Grows p p'

  pub after :
      {A : Type 0} {p p' p'' : Progress} {stands : A → Type 0} {a : A}
      → Grows p p'
      → Leaves p' stands p'' a
      → Leaves p stands p'' a
  after g l = record { result = l.result; built = l.built; grows = grow_trans g l.grows }

  -- every router that waits leads to the one that is asked for
  abbrev pub LeadTo : Progress → String → Type 0
  LeadTo p name = (k : String) → Waits p k → LeadsTo routers k name

  -- a call of `parse` with the fuel
  abbrev pub IsRight : (Progress → String → Parsed Router) → (Progress → String → Type 0) → Type 0
  IsRight f pre =
      (p : Progress) (name : String)
      → pre p name
      → IsBuilt p
      → LeadTo p name
      → Ensures (Leaves p (Builds clients routers name)) (Justified routers) (f p name)

  -- the loop over the routers of a composed one
  pub parse_children_lem :
      (fuel : ℕ) (settings : Child → EntrySettings) (f : Progress → String → Parsed Router)
      → IsRight f (λ p name. pending p.visited routers < fuel)
      → (p : Progress) (crs : List Child) → pending p.visited routers < fuel
      → IsBuilt p
      → ((cr : Child) → In cr crs → LeadTo p cr.router_name)
      → Ensures
          (Leaves p (BuildsAll clients routers settings crs))
          (Justified routers)
          (parse_children f settings p crs)
  unfolding parse_children
  parse_children_lem fuel settings f right p [] less built lead = record {
    result = no_children;
    built = built;
    grows = grow_refl p;
  }
  parse_children_lem fuel settings f right p (cr ∷ crs) less built lead =
      then_parse-Ensures (Leaves p (Builds clients routers cr.router_name))
        (Leaves p (BuildsAll clients routers settings (cr ∷ crs))) _ (f p cr.router_name) _
        (right p cr.router_name less built (lead cr (inl refl)))
        λ p1 ri l1.
          then_parse-Ensures (Leaves p1 (BuildsAll clients routers settings crs))
            (Leaves p (BuildsAll clients routers settings (cr ∷ crs))) _
            (parse_children f settings p1 crs) _
            (parse_children_lem fuel settings f right p1 crs
              (ground (arith, pending-le p.visited p1.visited routers l1.grows.keeps)) l1.built
              λ c there k w. lead c (inr there) k (l1.grows.back k w))
            λ p2 rest l2. record {
              result = child l1.result l2.result;
              built = l2.built;
              grows = grow_trans l1.grows l2.grows;
            }

  alone :
      (p : Progress) (cfg : RouterConfig) (outcome : Result RouteError Router)
      → IsBuilt p
      → Fails routers outcome
      → ((r : Router) → outcome ≡ ok r → BuildsConfig clients routers cfg r)
      → Ensures (Leaves p (BuildsConfig clients routers cfg)) (Justified routers) (p, some outcome)
  alone p cfg (ok r) built bad good = record {
    result = good r refl;
    built = built;
    grows = grow_refl p;
  }
  alone p cfg (err x) built bad good = bad

  -- the switch over the type of the router
  pub parse_config_lem :
      (fuel : ℕ) (f : Progress → String → Parsed Router) (name : String)
      → IsRight f (λ p name. pending p.visited routers < fuel)
      → (p : Progress) (cfg : RouterConfig) → lookup name routers ≡ some cfg
      → pending p.visited routers < fuel
      → IsBuilt p
      → ((cr : Child) → In cr (children_of cfg) → LeadTo p cr.router_name)
      → Ensures
          (Leaves p (BuildsConfig clients routers cfg))
          (Justified routers)
          (parse_config clients routers f p cfg)
  unfolding parse_config
  parse_config_lem fuel f name right p (http endpoint batch concurrency) found less built lead =
      alone p (http endpoint batch concurrency) _ built
        (http_router-Fails clients routers name endpoint batch concurrency found)
        λ r e. by_http _ _ _ e
  parse_config_lem fuel f name right p (dht mode accelerated public) found less built lead =
      alone p (dht mode accelerated public) _ built
        (dht_router-Fails clients routers name mode accelerated public found) λ r e. by_dht _ _ _ e
  parse_config_lem fuel f name right p (parallel crs) found less built lead =
      then_parse-Ensures (Leaves p (BuildsAll clients routers parallel_entry crs))
        (Leaves p (BuildsConfig clients routers (parallel crs))) _
        (parse_children f parallel_entry p crs) _
        (parse_children_lem fuel parallel_entry f right p crs less built lead)
        λ p1 rs l. record { result = by_parallel l.result; built = l.built; grows = l.grows }
  parse_config_lem fuel f name right p (sequential crs) found less built lead =
      then_parse-Ensures (Leaves p (BuildsAll clients routers sequential_entry crs))
        (Leaves p (BuildsConfig clients routers (sequential crs))) _
        (parse_children f sequential_entry p crs) _
        (parse_children_lem fuel sequential_entry f right p crs less built lead)
        λ p1 rs l. record { result = by_sequential l.result; built = l.built; grows = l.grows }
  parse_config_lem fuel f name right p (unknown_type t) found less built lead = (name, found)
