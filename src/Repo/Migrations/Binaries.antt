-- ===== src/Repo/Migrations/Binaries.antt =====
-- The binaries that `RunMigration` uses are those of the migrations they are found or fetched for.
use bock_ipfs.Base.{
  ltb, str_eq, Bool-cases, Option-cases, string_eq, length, is_empty, String, ◌≡◌, subst, inl, inr,
  true, false, none, some, List, [], ◌∷◌, arith,
}
use bock_ipfs.Base.Results.{Result, ok, err, ok_injective}
use bock_ipfs.Base.Dict.{Dict, lookup, insert, lookup-insert}
use bock_ipfs.Repo.Migrations.Versions.{Migration, migration_beq, migration_beq_iff, migration_eq}
use bock_ipfs.Repo.Migrations.{
  record_path, missing_of, failed_of, add_fetched, fetch_missing, Machine, complete,
}
use bock_ipfs.Repo.Migrations.Finding.{recorded}

-- Documented behaviour of a migration binary: it takes a repository of its lower version to its
-- upper one, and back with `-revert`, if it reports no error; what the search path and the fetcher
-- give for a name is such a binary for it.
pub record MigrationLaws {Dir : Type 0} (w : Machine Dir) : Type 1 where
  pub IsBinary : Migration → String → Type 0
  pub from_path : (m : Migration) (p : String) → w.look_path m ≡ some p → IsBinary m p
  pub from_fetch : (m : Migration) (p : String) → w.fetch m ≡ some p → IsBinary m p
  pub forwards :
      (dir : Dir) (m : Migration) (p : String)
      → IsBinary m p
      → w.repo_version dir ≡ ok m.from
      → (w.run dir (some p) false).1 ≡ none
      → w.repo_version (w.run dir (some p) false).0 ≡ ok m.to
  pub backwards :
      (dir : Dir) (m : Migration) (p : String)
      → IsBinary m p
      → w.repo_version dir ≡ ok m.to
      → (w.run dir (some p) true).1 ≡ none
      → w.repo_version (w.run dir (some p) true).0 ≡ ok m.from

module _ {Dir : Type 0} (w : Machine Dir) (laws : MigrationLaws w) where
  open laws use {IsBinary}

  -- every entry is a binary for its name
  unfoldable pub AllBinaries : Dict Migration String → Type 0
  AllBinaries bins = (m : Migration) (p : String) → lookup m bins ≡ some p → IsBinary m p

  pub insert-AllBinaries :
      (bins : Dict Migration String) (k : Migration) (v : String)
      → IsBinary k v
      → AllBinaries bins
      → AllBinaries (insert k v bins)
  unfolding AllBinaries
  insert-AllBinaries bins k v b all m p h = elim (Bool-cases (migration_beq k m)) [
    | inl same ↦
        let value : v ≡ p = ground (arith, lookup-insert k m v bins, same, h) in
        subst (λ q. IsBinary m q) value
          (subst (λ j. IsBinary j v) ((migration_beq_iff k m).0 same) b)
    | inr differ ↦ all m p (ground (arith, lookup-insert k m v bins, differ, h))
  ]

  pub recorded-AllBinaries :
      (ms : List Migration) (bins : Dict Migration String)
      → AllBinaries bins
      → AllBinaries (recorded w.look_path ms bins)
  unfolding recorded record_path
  recorded-AllBinaries [] bins all = all
  recorded-AllBinaries (k ∷ ms) bins all = elim (Option-cases (w.look_path k)) [
    | inl e ↦ rw (e, record_path, recorded) (recorded-AllBinaries ms bins all)
    | inr (v, e) ↦
        rw (e, record_path, recorded)
          (recorded-AllBinaries ms (insert k v bins)
            (insert-AllBinaries bins k v (laws.from_path k v e) all))
  ]

  pub add_fetched-AllBinaries :
      (ms : List Migration) (bins : Dict Migration String)
      → AllBinaries bins
      → AllBinaries (add_fetched w.fetch ms bins)
  unfolding add_fetched
  add_fetched-AllBinaries [] bins all = all
  add_fetched-AllBinaries (k ∷ ms) bins all = elim (Option-cases (w.fetch k)) [
    | inl e ↦ rw (e, add_fetched) (add_fetched-AllBinaries ms bins all)
    | inr (v, e) ↦
        rw (e, add_fetched)
          (add_fetched-AllBinaries ms (insert k v bins)
            (insert-AllBinaries bins k v (laws.from_fetch k v e) all))
  ]

  pub fetch_missing-AllBinaries :
      (osv : Result String String) (missing : List Migration) (bins done : Dict Migration String)
      → fetch_missing osv w.fetch_ended w.fetch missing bins ≡ ok done
      → AllBinaries bins
      → AllBinaries done
  unfolding fetch_missing
  fetch_missing-AllBinaries (err e) missing bins done h all = absurd (cc h)
  fetch_missing-AllBinaries (ok osv) missing bins done h all =
      elim (Bool-cases (str_eq osv "linux-musl")) [
        | inl musl ↦ absurd (cc (rw (musl, fetch_missing) at h))
        | inr known ↦ elim (Bool-cases (is_empty (failed_of w.fetch missing))) [
          | inr fails ↦ absurd (cc (rw (known, fails, fetch_missing) at h))
          | inl none_failed ↦
              subst AllBinaries (ok_injective (rw (known, none_failed, fetch_missing) at h))
                (add_fetched-AllBinaries missing bins all)
        ]
      ]

  pub complete-AllBinaries :
      (ms : List Migration) (bins done : Dict Migration String)
      → complete w ms bins ≡ ok done
      → AllBinaries bins
      → AllBinaries done
  unfolding complete
  complete-AllBinaries ms bins done h all = elim (Bool-cases (ltb (length bins) (length ms))) [
    | inr enough ↦ subst AllBinaries (ok_injective (rw (enough, complete) at h)) all
    | inl few ↦ elim (Option-cases w.mkdir_temp) [
      | inr (e, bad) ↦ absurd (cc (rw (few, bad, complete) at h))
      | inl made ↦
          fetch_missing-AllBinaries w.osv (missing_of bins ms) bins done
            (rw (few, made, complete) at h) all
    ]
  ]
