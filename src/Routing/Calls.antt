-- ===== src/Routing/Calls.antt =====
-- kubo-master/routing/delegated.go: what a call of `parse` leaves, whatever it returns.
use bock_ipfs.Base.Results.{ok, err}
use bock_ipfs.Base.Dict.{Dict, lookup, lookup-insert}
use bock_ipfs.Base.{
  str_eq, Bool-cases, Option-cases, string_eq, contains, In, ℕ, zero, suc, ◌<◌, String, ◌≡◌, refl,
  sym, subst, inl, inr, false, some, ◌∷◌, arith, eq_iff,
}
use bock_ipfs.Routing.{Progress, Parsed, then_parse, finish, parse_config, parse}
use bock_ipfs.Routing.Reference.{
  Builds, by_config, BuildsConfig, children_of, DependsOn, LeadsTo, direct, further, Justified,
}
use bock_ipfs.Routing.Termination.{pending, pending-lt}
use bock_ipfs.Routing.Settings.{
  Child, RouterConfig, Router, dependency_loop, router_not_found, Clients,
}
use bock_ipfs.Routing.Building.{
  Ensures, then_parse-Ensures, Waits, grow_refl, IsBuilt, Leaves, LeadTo, IsRight, parse_config_lem,
}

module _ (clients : Clients) (routers : Dict String RouterConfig) where
  -- what a call leaves that made the router itself
  finish-Leaves :
      (p : Progress) (name : String) (cfg : RouterConfig) (p' : Progress) (r : Router)
      → lookup name routers ≡ some cfg
      → Leaves clients routers
          (record p { visited = name ∷ p.visited })
          (BuildsConfig clients routers cfg)
          p'
          r
      → Ensures
          (Leaves clients routers p (Builds clients routers name))
          (Justified routers)
          (finish name p' r)
  unfolding finish
  finish-Leaves p name cfg p' r found l = record {
    result = by_config cfg found l.result;
    built = λ k r' e. elim (Bool-cases (str_eq name k)) [
      | inl same ↦
          let there : r ≡ r' = ground (arith, lookup-insert name k r p'.created) in
          subst (λ z. Builds clients routers z r') (ground (arith, eq_iff name k))
            (subst (λ z. Builds clients routers name z) there (by_config cfg found l.result))
      | inr other ↦ l.built k r' (ground (arith, lookup-insert name k r p'.created))
    ];
    grows = record {
      keeps = λ k there. l.grows.keeps k (ground arith);
      back = λ k w.
          let w' : Waits p' k = record {
            seen = w.seen;
            missing = ground (arith, lookup-insert name k r p'.created, w.missing);
          } in
          let v = l.grows.back k w' in
          record {
            seen = ground (arith, v.seen, w.missing, lookup-insert name k r p'.created);
            missing = v.missing;
          };
    };
  }

  depends :
      (name : String) (cfg : RouterConfig)
      → lookup name routers ≡ some cfg
      → (cr : Child) → In cr (children_of cfg)
      → DependsOn routers name cr.router_name
  depends name cfg found cr there = record {
    cfg = cfg;
    child = cr;
    configured = found;
    listed = there;
    named = refl;
  }

  -- the routers that wait lead to each that the new one is composed of
  children-LeadTo :
      (p : Progress) (name : String) (cfg : RouterConfig)
      → lookup name routers ≡ some cfg
      → LeadTo clients routers p name
      → (cr : Child) → In cr (children_of cfg)
      → LeadTo clients routers (record p { visited = name ∷ p.visited }) cr.router_name
  children-LeadTo p name cfg found lead cr there k w = elim (Bool-cases (str_eq name k)) [
    | inl same ↦
        subst (λ z. LeadsTo routers z cr.router_name) (ground (arith, eq_iff name k))
          (direct (depends name cfg found cr there))
    | inr other ↦
        further (lead k (record { seen = ground (arith, w.seen); missing = w.missing }))
          (depends name cfg found cr there)
  ]

  -- a call that makes the router, when the call for each below is right
  make_lem :
      (fuel : ℕ)
      → IsRight clients routers
          (parse clients routers fuel)
          (λ p name. pending p.visited routers < fuel)
      → (p : Progress) (name : String) (cfg : RouterConfig) → pending p.visited routers < suc fuel
      → IsBuilt clients routers p
      → LeadTo clients routers p name
      → contains p.visited name ≡ false
      → lookup name routers ≡ some cfg
      → Ensures (Leaves clients routers p (Builds clients routers name)) (Justified routers) (
          then_parse
            (parse_config clients routers
              (λ q n. parse clients routers fuel q n)
              (record p { visited = name ∷ p.visited })
              cfg)
            λ p' r. finish name p' r)
  make_lem fuel right p name cfg less built lead new found =
      let q : Progress = record p { visited = name ∷ p.visited } in
      then_parse-Ensures (Leaves clients routers q (BuildsConfig clients routers cfg))
        (Leaves clients routers p (Builds clients routers name)) _ _ _
        (parse_config_lem clients routers fuel (parse clients routers fuel) name right q cfg found
          (ground (arith, pending-lt p.visited name cfg routers found new)) built
          (children-LeadTo p name cfg found lead))
        λ p' r l. finish-Leaves p name cfg p' r found l

  -- the whole call
  pub parse_lem :
      (fuel : ℕ)
      → IsRight clients routers
          (parse clients routers fuel)
          (λ p name. pending p.visited routers < fuel)
  unfolding parse
  parse_lem zero p name less built lead = omega arith
  parse_lem (suc fuel) p name less built lead =
      let Right : Parsed Router → Type 0 = λ r.
        Ensures (Leaves clients routers p (Builds clients routers name)) (Justified routers) r in
      let q : Progress = record p { visited = name ∷ p.visited } in
      elim (Option-cases (lookup name p.created)) [
        | inr (r, e) ↦
            let step : parse clients routers (suc fuel) p name ≡ (p, some (ok r)) = ground arith in
            subst Right (sym step)
              (record { result = built name r e; built = built; grows = grow_refl p })
        | inl e ↦ elim (Bool-cases (contains p.visited name)) [
          | inl seen ↦
              let step : parse clients routers (suc fuel) p name
                  ≡ (p, some (err (dependency_loop name))) =
                ground arith in
              subst Right (sym step) (lead name (record { seen = seen; missing = e }))
          | inr new ↦ elim (Option-cases (lookup name routers)) [
            | inl absent ↦
                let step : parse clients routers (suc fuel) p name
                    ≡ (q, some (err (router_not_found name))) =
                  ground arith in
                subst Right (sym step) absent
            | inr (cfg, found) ↦
                let step : parse clients routers (suc fuel) p name
                    ≡ then_parse
                        (parse_config clients routers (λ p n. parse clients routers fuel p n) q cfg)
                        (λ p' r. finish name p' r) =
                  ground arith in
                subst Right (sym step)
                  (make_lem fuel (parse_lem fuel) p name cfg less built lead new found)
          ]
        ]
      ]
