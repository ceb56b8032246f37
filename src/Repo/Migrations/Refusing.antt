-- ===== src/Repo/Migrations/Refusing.antt =====
-- When `RunMigration` may change the repository, and that it ends.
use bock_ipfs.Base.{
  Bool-cases, Option-cases, string_eq, ◌≡◌, refl, sym, ap, ◌∙◌, ◌≢◌, ◌⊎◌, inl, inr, Bool, true,
  false, not, ◌&&◌, Option, none, some, [], arith,
}
use bock_ipfs.Base.Results.{ok, Result-cases, checked}
use bock_ipfs.Repo.Migrations.Versions.{int_lt, distance, migration_eq}
use bock_ipfs.Base.Int.{ℤ, pos, negsuc, int_beq, int_beq_iff}
use bock_ipfs.Repo.Migrations.{
  MigrationError, ipfs_dir_error, version_error, ctx_error, downgrade_not_allowed, Machine, migrate,
  run_from, run_migration,
}
use bock_ipfs.Repo.Migrations.Finding.{chain, recorded, find_migrations_run}

lt_differ : (a b : ℤ) → int_lt a b ≡ true → int_beq b a ≡ false
unfolding int_lt
lt_differ (pos a) (pos b) h = ground (arith, h)
lt_differ (pos a) (negsuc b) h = refl
lt_differ (negsuc a) (pos b) h = refl
lt_differ (negsuc a) (negsuc b) h = ground (arith, h)

-- when the repository may be changed
abbrev pub Justified : {Dir : Type 0} → Machine Dir → ℤ → Bool → Dir → Type 0
Justified w target allow_downgrade dir =
    (w.check_dir dir ≡ none)
    × ((from : ℤ) × (w.repo_version dir ≡ ok from)
        × (from ≢ target)
        × (int_lt target from ≡ true → allow_downgrade ≡ true))

run_migration_lem :
    {Dir : Type 0} (w : Machine Dir) (target : ℤ) (allow_downgrade : Bool) (dir : Dir)
    → (p : Dir × Option MigrationError) × (run_migration w target allow_downgrade dir ≡ some p)
      × ((p.0 ≡ dir) ⊎ Justified w target allow_downgrade dir)
unfolding run_migration run_from migrate
run_migration_lem w target allow_downgrade dir = elim (Option-cases (w.check_dir dir)) [
  | inr (e, bad) ↦ ((dir, some (ipfs_dir_error e)), rw (bad, run_migration) refl, inl refl)
  | inl checked ↦ elim (Result-cases (w.repo_version dir)) [
    | inr (e, bad) ↦
        ((dir, some (version_error e)), rw (checked, bad, run_migration, run_from) refl, inl refl)
    | inl (from, v) ↦ elim (Bool-cases (int_beq from target)) [
      | inl same ↦ ((dir, none), rw (checked, v, same, run_migration, run_from) refl, inl refl)
      | inr differ ↦
          let apart : from ≢ target =
            λ e. absurd (ground (arith, differ, (int_beq_iff from target).1 e)) in
          elim (Bool-cases (int_lt target from && not allow_downgrade)) [
            | inl down ↦ (
              (dir, some (downgrade_not_allowed from target)),
              rw (checked, v, differ, down, run_migration, run_from) refl,
              inl refl,
            )
            | inr allowed ↦ elim (find_migrations_run w.look_path w.ctx_err from target) [
              | inl found ↦
                  let steps = chain (distance from target) (int_lt target from) from in
                  (
                    migrate w from target dir (ok (steps, recorded w.look_path steps [])),
                    rw (checked, v, differ, allowed, found, run_migration, run_from) refl,
                    inr (checked, (from, v, apart, λ below. ground (arith, allowed, below))),
                  )
              | inr (e, c, ended, found) ↦ (
                (dir, some (ctx_error e)),
                rw (checked, v, differ, allowed, found, run_migration, run_from) refl,
                inl refl,
              )
            ]
          ]
    ]
  ]
]

-- `RunMigration` comes to an end for all versions, directories and answers of the machine. It
-- refuses a downgrade that is not allowed, leaving the repository as it was. And whenever it changes
-- the repository, the directory was accepted, its version was known and another one than the target,
-- and it was below it unless a downgrade was allowed.
pub run_migration_refuses :
    {Dir : Type 0} (w : Machine Dir) (target : ℤ) (allow_downgrade : Bool) (dir : Dir)
    → ((dir' : Dir) × (e : Option MigrationError) × (run_migration w target allow_downgrade dir
          ≡ some (dir', e)))
      × ((from : ℤ)
          → w.check_dir dir ≡ none
          → w.repo_version dir ≡ ok from
          → int_lt target from ≡ true
          → allow_downgrade ≡ false
          → run_migration w target allow_downgrade dir
            ≡ some (dir, some (downgrade_not_allowed from target)))
      × ((dir' : Dir) (e : Option MigrationError)
          → run_migration w target allow_downgrade dir ≡ some (dir', e)
          → dir' ≢ dir
          → Justified w target allow_downgrade dir)
unfolding run_migration run_from
run_migration_refuses {Dir = Dir} w target allow_downgrade dir =
    let (p, run, why) = run_migration_lem w target allow_downgrade dir in
    (
      (p.0, p.1, run),
      λ from checked v below forbidden.
          rw (checked, v, lt_differ target from below, below, forbidden, run_migration, run_from)
            refl,
      λ dir' e run' changed. elim why [
        | inl same ↦
            let own : p ≡ (dir', e) = ground (arith, run, run') in
            absurd (changed (sym (ap (λ (q : Dir × Option MigrationError). q.0) own) ∙ same))
        | inr just ↦ just
      ],
    )
