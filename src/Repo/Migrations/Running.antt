-- ===== src/Repo/Migrations/Running.antt =====
-- What `RunMigration` does to the repository.
use bock_ipfs.Base.{
  Bool-cases, Option-cases, string_eq, In, ℕ, zero, suc, String, ◌≡◌, refl, sym, ap, ◌∙◌, subst,
  ◌⊎◌, inl, inr, Bool, true, false, not, ◌&&◌, Option, none, some, List, [], ◌∷◌, arith,
}
use bock_ipfs.Base.Results.{Result, ok, err, Result-cases, checked}
use bock_ipfs.Base.Dict.{Dict, lookup}
use bock_ipfs.Repo.Migrations.Versions.{int_lt, distance, Migration, migration_eq}
use bock_ipfs.Base.Int.{ℤ, int_beq, int_beq_iff}
use bock_ipfs.Repo.Migrations.Fetching.{Present, complete-Present}
use bock_ipfs.Repo.Migrations.{
  MigrationError, migration_at, next, Machine, run_all, complete, migrate, run_from, run_migration,
}
use bock_ipfs.Repo.Migrations.Finding.{
  chain, IsAhead, distance-next, distance-zero, int_lt-IsAhead, recorded, find_migrations_run,
}
use bock_ipfs.Repo.Migrations.Binaries.{
  MigrationLaws, AllBinaries, recorded-AllBinaries, complete-AllBinaries,
}

module _ {Dir : Type 0} (w : Machine Dir) (laws : MigrationLaws w) where
  open laws use {IsBinary}

  -- one step of a chain that reports no error
  run_step :
      (down : Bool) (cur : ℤ) (dir : Dir) (p : String)
      → IsBinary (migration_at down cur) p
      → w.repo_version dir ≡ ok cur
      → (w.run dir (some p) down).1 ≡ none
      → w.repo_version (w.run dir (some p) down).0 ≡ ok (next down cur)
  unfolding migration_at next
  run_step true cur dir p b v fine = laws.backwards dir (migration_at true cur) p b v fine
  run_step false cur dir p b v fine = laws.forwards dir (migration_at false cur) p b v fine

  run_all_cons :
      (bins : Dict Migration String) (down : Bool) (dir : Dir) (m : Migration) (ms : List Migration)
      (p : String)
      → lookup m bins ≡ some p
      → (run_all w bins down dir (m ∷ ms)).1 ≡ none
      → ((w.run dir (some p) down).1 ≡ none)
        × (run_all w bins down dir (m ∷ ms) ≡ run_all w bins down (w.run dir (some p) down).0 ms)
  unfolding run_all
  run_all_cons bins down dir m ms p found h = elim (Option-cases (w.run dir (some p) down).1) [
    | inr (x, bad) ↦ absurd (ground (arith, found, bad, h))
    | inl fine ↦ (fine, ground (arith, found, fine))
  ]

  run_chain :
      (n : ℕ) (down : Bool) (cur to : ℤ) (dir : Dir) (bins : Dict Migration String)
      → IsAhead down cur to
      → distance cur to ≡ n
      → AllBinaries w laws bins
      → ((m : Migration) → In m (chain n down cur) → Present bins m)
      → w.repo_version dir ≡ ok cur
      → (run_all w bins down dir (chain n down cur)).1 ≡ none
      → w.repo_version (run_all w bins down dir (chain n down cur)).0 ≡ ok to
  unfolding run_all chain AllBinaries Present
  run_chain zero down cur to dir bins ahead d all there v h = v ∙ ap ok (distance-zero cur to d)
  run_chain (suc n) down cur to dir bins ahead d all there v h =
      let m = migration_at down cur in
      let (p, found) = there m (inl refl) in
      let (d', ahead', differ) = distance-next n down cur to ahead d in
      let (fine, same) = run_all_cons bins down dir m (chain n down (next down cur)) p found h in
      subst (λ (r : Dir × Option MigrationError). w.repo_version r.0 ≡ ok to) (sym same)
        (run_chain n down (next down cur) to (w.run dir (some p) down).0 bins ahead' d' all
          (λ k i. there k (inr i)) (run_step down cur dir p (all m p found) v fine)
          (subst (λ (r : Dir × Option MigrationError). r.1 ≡ none) same h))

  migrate_reaches :
      (from target : ℤ) (dir : Dir)
      (found : Result MigrationError (List Migration × Dict Migration String))
      → (found
          ≡ ok (
            chain (distance from target) (int_lt target from) from,
            recorded w.look_path (chain (distance from target) (int_lt target from) from) [],
          ))
        ⊎ ((e : MigrationError) × (found ≡ err e))
      → w.repo_version dir ≡ ok from
      → (migrate w from target dir found).1 ≡ none
      → w.repo_version (migrate w from target dir found).0 ≡ ok target
  unfolding migrate AllBinaries lookup
  migrate_reaches from target dir found (inr (e, same)) v h =
      absurd (cc (subst (λ f. (migrate w from target dir f).1 ≡ none) same h))
  migrate_reaches from target dir found (inl same) v h =
      let steps = chain (distance from target) (int_lt target from) from in
      let bins = recorded w.look_path steps [] in
      let h' = subst (λ f. (migrate w from target dir f).1 ≡ none) same h in
      subst (λ f. w.repo_version (migrate w from target dir f).0 ≡ ok target) (sym same)
        (elim (Result-cases (complete w steps bins)) [
          | inr (e, bad) ↦ absurd (cc (rw (bad, migrate) at h'))
          | inl (done, fine) ↦
              rw (fine, migrate)
                (run_chain (distance from target) (int_lt target from) from target dir done
                  (int_lt-IsAhead from target) refl
                  (complete-AllBinaries w laws steps bins done fine (
                    recorded-AllBinaries w laws steps []
                      (λ m p none_there. absurd (cc none_there))))
                  (complete-Present w steps done fine) v (rw (fine, migrate) at h'))
        ])

  run_from_reaches :
      (target from : ℤ) (allow_downgrade : Bool) (dir dir' : Dir)
      → w.repo_version dir ≡ ok from
      → run_from w target allow_downgrade dir (ok from) ≡ some (dir', none)
      → w.repo_version dir' ≡ ok target
  unfolding run_from
  run_from_reaches target from allow_downgrade dir dir' v h =
      elim (Bool-cases (int_beq from target)) [
        | inl same ↦
            subst (λ d. w.repo_version d ≡ ok target) (ground (arith, same, h))
              (v ∙ ap ok ((int_beq_iff from target).0 same))
        | inr differ ↦ elim (Bool-cases (int_lt target from && not allow_downgrade)) [
          | inl down ↦ absurd (cc (rw (differ, down, run_from) at h))
          | inr allowed ↦ elim (find_migrations_run w.look_path w.ctx_err from target) [
            | inl found ↦
                reached (migrate w from target dir (ok (_, _)))
                  (migrate_reaches from target dir _ (inl refl) v)
                  (rw (differ, allowed, found, run_from) at h)
            | inr (e, c, ended, found) ↦
                absurd (cc (rw (differ, allowed, found, run_from, migrate) at h))
          ]
        ]
      ]
    where
      reached :
          (p : Dir × Option MigrationError)
          → (p.1 ≡ none → w.repo_version p.0 ≡ ok target)
          → ◌≡◌ {A = Option (Dir × Option MigrationError)} (some p) (some (dir', none))
          → w.repo_version dir' ≡ ok target
      reached (d, e) at_target same =
          subst (λ x. w.repo_version x ≡ ok target) (ground (arith, same))
            (at_target (ground (arith, same)))

  -- Where the binaries that are found or fetched do what their names say, a `RunMigration` that
  -- reports no error, forwards or back, leaves a repository of the target version.
  pub run_migration_reaches :
      (target : ℤ) (allow_downgrade : Bool) (dir dir' : Dir)
      → run_migration w target allow_downgrade dir ≡ some (dir', none)
      → w.repo_version dir' ≡ ok target
  unfolding run_migration run_from
  run_migration_reaches target allow_downgrade dir dir' h = elim (Option-cases (w.check_dir dir)) [
    | inr (e, bad) ↦ absurd (cc (rw (bad, run_migration) at h))
    | inl checked ↦ elim (Result-cases (w.repo_version dir)) [
      | inr (e, bad) ↦ absurd (cc (rw (checked, bad, run_migration, run_from) at h))
      | inl (from, v) ↦
          run_from_reaches target from allow_downgrade dir dir' v
            (rw (checked, v, run_migration) at h)
    ]
  ]
