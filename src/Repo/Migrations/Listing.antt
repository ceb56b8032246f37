-- ===== src/Repo/Migrations/Listing.antt =====
-- What `findMigrations` lists: the migrations by name, and the binaries of the search path.
use bock_ipfs.Base.{
  Bool-cases, Option-cases, string_eq, In, ℕ, zero, suc, String, ◌≡◌, refl, sym, ap, ◌∙◌, subst,
  ◌↔◌, ◌⊎◌, inl, inr, true, false, Option, some, List, [], ◌∷◌, arith,
}
use bock_ipfs.Base.Results.{ok, err}
use bock_ipfs.Base.Int.{ℤ}
use bock_ipfs.Base.Dict.{Dict, lookup, lookup-insert}
use bock_ipfs.Repo.Migrations.Versions.{
  int_succ, int_pred, int_lt, distance, Migration, migration_beq, migration_beq_iff, migration_eq,
}
use bock_ipfs.Repo.Migrations.{ctx_error, migration_at, next, record_path, find_migrations}
use bock_ipfs.Repo.Migrations.Finding.{
  chain, IsAhead, distance-next, distance-zero, int_lt-IsAhead, recorded, find_migrations_run,
}

-- Steps up from one version to another, each named by its version and the next.
pub data LeadsUp (to : ℤ) : ℤ → List Migration → Type 0 where
  at_top : (from : ℤ) → from ≡ to → LeadsUp to from []
  up :
      (from : ℤ) {ms : List Migration}
      → LeadsUp to (int_succ from) ms
      → LeadsUp to from (record { from = from; to = int_succ from } ∷ ms)

-- Steps down from one version to another, each named by the version below and its own.
pub data LeadsDown (to : ℤ) : ℤ → List Migration → Type 0 where
  at_bottom : (from : ℤ) → from ≡ to → LeadsDown to from []
  down :
      (from : ℤ) {ms : List Migration}
      → LeadsDown to (int_pred from) ms
      → LeadsDown to from (record { from = int_pred from; to = from } ∷ ms)

chain-LeadsUp :
    (n : ℕ) (from to : ℤ)
    → IsAhead false from to
    → distance from to ≡ n
    → LeadsUp to from (chain n false from)
unfolding chain next migration_at
chain-LeadsUp zero from to ahead d = at_top from (distance-zero from to d)
chain-LeadsUp (suc n) from to ahead d =
    let (d', ahead', differ) = distance-next n false from to ahead d in
    up from (chain-LeadsUp n (int_succ from) to ahead' d')

chain-LeadsDown :
    (n : ℕ) (from to : ℤ)
    → IsAhead true from to
    → distance from to ≡ n
    → LeadsDown to from (chain n true from)
unfolding chain next migration_at
chain-LeadsDown zero from to ahead d = at_bottom from (distance-zero from to d)
chain-LeadsDown (suc n) from to ahead d =
    let (d', ahead', differ) = distance-next n true from to ahead d in
    down from (chain-LeadsDown n (int_pred from) to ahead' d')

module _ (look_path : Migration → Option String) (ctx_err : ℤ → Option String) where
  -- the map has nothing but what the search path has
  abbrev IsFound : Dict Migration String → Type 0
  IsFound bins = (m : Migration) (p : String) → lookup m bins ≡ some p → look_path m ≡ some p

  record_path-IsFound :
      (k : Migration) (bins : Dict Migration String)
      → IsFound bins
      → IsFound (record_path k (look_path k) bins)
  unfolding record_path
  record_path-IsFound k bins all m p = elim (Option-cases (look_path k)) [
    | inl e ↦ ground (arith, e, all m p)
    | inr (v, e) ↦ λ h. elim (Bool-cases (migration_beq k m)) [
      | inl same ↦
          let value : v ≡ p = ground (arith, e, h, lookup-insert k m v bins, same) in
          subst (λ j. look_path j ≡ some p) ((migration_beq_iff k m).0 same) (e ∙ ap some value)
      | inr differ ↦ all m p (ground (arith, e, h, lookup-insert k m v bins, differ))
    ]
  ]

  -- an entry is a step, or was there before
  recorded-In :
      (ms : List Migration) (bins : Dict Migration String) (m : Migration) (p : String)
      → lookup m (recorded look_path ms bins) ≡ some p
      → In m ms ⊎ (lookup m bins ≡ some p)
  unfolding recorded record_path
  recorded-In [] bins m p h = inr h
  recorded-In (k ∷ ms) bins m p h = elim (recorded-In ms (record_path k (look_path k) bins) m p h) [
    | inl i ↦ inl (inr i)
    | inr there ↦ elim (Option-cases (look_path k)) [
      | inl e ↦ inr (ground (arith, e, there))
      | inr (v, e) ↦ elim (Bool-cases (migration_beq k m)) [
        | inl same ↦ inl (inl ((migration_beq_iff k m).0 same))
        | inr differ ↦ inr (ground (arith, e, there, lookup-insert k m v bins, differ))
      ]
    ]
  ]

  recorded-IsFound :
      (ms : List Migration) (bins : Dict Migration String)
      → IsFound bins
      → IsFound (recorded look_path ms bins)
  unfolding recorded
  recorded-IsFound [] bins all = all
  recorded-IsFound (k ∷ ms) bins all =
      recorded-IsFound ms (record_path k (look_path k) bins) (record_path-IsFound k bins all)

  -- a step that the search path has is entered, and stays
  recorded-lookup :
      (ms : List Migration) (bins : Dict Migration String) (m : Migration) (p : String)
      → look_path m ≡ some p
      → In m ms ⊎ (lookup m bins ≡ some p)
      → lookup m (recorded look_path ms bins) ≡ some p
  unfolding recorded record_path
  recorded-lookup [] bins m p found (inl i) = absurd i
  recorded-lookup [] bins m p found (inr there) = there
  recorded-lookup (k ∷ ms) bins m p found here =
      recorded-lookup ms (record_path k (look_path k) bins) m p found (elim here [
        | inl (inr later) ↦ inl later
        | inl (inl same) ↦
            let e : look_path k ≡ some p = ap look_path same ∙ found in
            let own : migration_beq k m ≡ true = (migration_beq_iff k m).1 same in
            inr (ground (arith, e, lookup-insert k m p bins, own))
        | inr there ↦ inr (elim (Option-cases (look_path k)) [
          | inl e ↦ ground (arith, e, there)
          | inr (v, e) ↦ elim (Bool-cases (migration_beq k m)) [
            | inr differ ↦ ground (arith, e, there, lookup-insert k m v bins, differ)
            | inl same ↦
                let value : v ≡ p =
                  ground (arith, e, found, ap look_path ((migration_beq_iff k m).0 same)) in
                ground (arith, e, value, lookup-insert k m v bins, same)
          ]
        ])
      ])

  -- What `findMigrations` gives when it succeeds: the steps between the versions, and a map that has
  -- exactly the binaries that the search path has for them.
  abbrev pub Listed : ℤ → ℤ → List Migration → Dict Migration String → Type 0
  Listed from to ms bins =
      (int_lt to from ≡ false → LeadsUp to from ms)
      × (int_lt to from ≡ true → LeadsDown to from ms)
      × ((m : Migration) (p : String)
          → (lookup m bins ≡ some p) ↔ (In m ms × (look_path m ≡ some p)))

  steps-Listed :
      (from to : ℤ)
      → let steps = chain (distance from to) (int_lt to from) from in
        Listed from to steps (recorded look_path steps [])
  unfolding lookup
  steps-Listed from to =
      let steps = chain (distance from to) (int_lt to from) from in
      (
        λ upwards.
            subst (λ b. LeadsUp to from (chain (distance from to) b from)) (sym upwards)
              (chain-LeadsUp (distance from to) from to
                (subst (λ b. IsAhead b from to) upwards (int_lt-IsAhead from to)) refl),
        λ downwards.
            subst (λ b. LeadsDown to from (chain (distance from to) b from)) (sym downwards)
              (chain-LeadsDown (distance from to) from to
                (subst (λ b. IsAhead b from to) downwards (int_lt-IsAhead from to)) refl),
        λ m p. (
          λ h. (
            elim (recorded-In steps [] m p h) [ inl i ↦ i | inr there ↦ absurd (cc there) ],
            recorded-IsFound steps [] (λ k q there. absurd (cc there)) m p h,
          ),
          λ (i, found). recorded-lookup steps [] m p found (inl i),
        ),
      )

  -- `findMigrations` comes to an end. It lists each step from the one version to the other, up or
  -- down, in the order in which they apply and named from the lower version to the upper one, with
  -- exactly the binaries that the search path has for them; it can only fail with the error of a
  -- context that has ended.
  pub find_migrations_lem :
      (from to : ℤ)
      → ((ms : List Migration) × (bins : Dict Migration String) × (find_migrations look_path ctx_err
              from to
            ≡ some (ok (ms, bins)))
          × Listed from to ms bins)
        ⊎ ((e : String) × (c : ℤ) × (ctx_err c ≡ some e)
            × (find_migrations look_path ctx_err from to ≡ some (err (ctx_error e))))
  find_migrations_lem from to = elim (find_migrations_run look_path ctx_err from to) [
    | inl done ↦ inl (_, _, done, steps-Listed from to)
    | inr stopped ↦ inr stopped
  ]
