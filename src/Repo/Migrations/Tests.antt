-- ===== src/Repo/Migrations/Tests.antt =====
-- Runs of migrations on a repository that is only its version, and instances of the theorems.
use bock_ipfs.Base.{
  if◌then◌else◌, string_eq, zero, suc, String, ◌≡◌, refl, sym, ap, ◌∙◌, ◌≢◌, ◌⊎◌, Bool, true, false,
  ◌&&◌, Option, none, some, List, [], ◌∷◌, arith,
}
use bock_ipfs.Base.Results.{ok, err, ok_injective}
use bock_ipfs.Base.Int.{ℤ, pos, negsuc, int_beq, int_beq_iff}
use bock_ipfs.Base.Dict.{Dict}
use bock_ipfs.Repo.Migrations.Listing.{Listed, find_migrations_lem}
use bock_ipfs.Repo.Migrations.Binaries.{MigrationLaws}
use bock_ipfs.Repo.Migrations.Running.{run_migration_reaches}
use bock_ipfs.Repo.Migrations.Refusing.{Justified, run_migration_refuses}
use bock_ipfs.Repo.Migrations.Versions.{
  int_succ, int_pred, int_lt, distance, Migration, migration_eq,
}
use bock_ipfs.Repo.Migrations.{
  MigrationError, ctx_error, downgrade_not_allowed, find_migrations, Machine, run_migration,
}

abbrev is_step : Migration → Bool
is_step m = int_beq m.to (int_succ m.from)

-- the step from 15 is on the search path, the others are fetched
abbrev on_path : Migration → Option String
on_path m = if int_beq m.from (pos 15) && is_step m then some "/bin/15-to-16" else none

abbrev fetched : Migration → Option String
fetched m = if is_step m then some "/tmp/fetched" else none

-- a binary that moves the version one step
abbrev move : ℤ → Option String → Bool → ℤ × Option String
move v none revert = (v, some "no command")
move v (some p) true = (int_pred v, none)
move v (some p) false = (int_succ v, none)

abbrev machine : Machine ℤ
machine = record {
  look_path = on_path;
  ctx_err = λ v. none;
  fetch = fetched;
  fetch_ended = none;
  osv = ok "linux";
  mkdir_temp = none;
  check_dir = λ d. none;
  repo_version = λ d. ok d;
  run = move;
}

pred-succ : (v : ℤ) → int_pred (int_succ v) ≡ v
unfolding int_pred int_succ
pred-succ (pos n) = refl
pred-succ (negsuc zero) = refl
pred-succ (negsuc (suc n)) = refl

-- every binary is for the name of one step
laws : MigrationLaws machine
laws = record {
  IsBinary = λ m p. is_step m ≡ true;
  from_path = λ m p h. ground (arith, h);
  from_fetch = λ m p h. ground (arith, h);
  forwards = λ dir m p b v fine.
      ap ok (ap int_succ (ok_injective v) ∙ sym ((int_beq_iff m.to (int_succ m.from)).0 b));
  backwards = λ dir m p b v fine.
      ap ok (
        ap int_pred (ok_injective v ∙ (int_beq_iff m.to (int_succ m.from)).0 b) ∙ pred-succ m.from);
}

up_run : run_migration machine (pos 17) false (pos 14) ≡ some (pos 17, none)
unfolding run_migration int_lt distance int_succ
up_run = refl

down_run : run_migration machine (pos 14) true (pos 17) ≡ some (pos 14, none)
unfolding run_migration int_lt distance int_pred int_succ
down_run = refl

refused_run :
    run_migration machine (pos 14) false (pos 17)
    ≡ some (pos 17, some (downgrade_not_allowed (pos 17) (pos 14)))
unfolding run_migration int_lt
refused_run = refl

run_migration_reaches_example : machine.repo_version (pos 17) ≡ ok (pos 17)
run_migration_reaches_example =
    run_migration_reaches machine laws (pos 17) false (pos 14) (pos 17) up_run

run_migration_refuses_example :
    ((dir' : ℤ) × (e : Option MigrationError) × (run_migration machine (pos 14) false (pos 17)
        ≡ some (dir', e)))
    × ((from : ℤ)
        → machine.check_dir (pos 17) ≡ none
        → machine.repo_version (pos 17) ≡ ok from
        → int_lt (pos 14) from ≡ true
        → false ≡ false
        → run_migration machine (pos 14) false (pos 17)
          ≡ some (pos 17, some (downgrade_not_allowed from (pos 14))))
    × ((dir' : ℤ) (e : Option MigrationError)
        → run_migration machine (pos 14) false (pos 17) ≡ some (dir', e)
        → dir' ≢ pos 17
        → Justified machine (pos 14) false (pos 17))
run_migration_refuses_example = run_migration_refuses machine (pos 14) false (pos 17)

find_migrations_lem_example :
    ((ms : List Migration) × (bins : Dict Migration String) × (find_migrations on_path
          (λ v. none)
          (pos 17)
          (pos 14)
        ≡ some (ok (ms, bins)))
      × Listed on_path (λ v. none) (pos 17) (pos 14) ms bins)
    ⊎ ((e : String) × (c : ℤ) × (◌≡◌ {A = Option String} none (some e))
        × (find_migrations on_path (λ v. none) (pos 17) (pos 14) ≡ some (err (ctx_error e))))
find_migrations_lem_example = find_migrations_lem on_path (λ v. none) (pos 17) (pos 14)

-- the steps down, of which the search path has one
down_listed :
    find_migrations on_path (λ v. none) (pos 17) (pos 15)
    ≡ some (
        ok (
          record { from = pos 16; to = pos 17 } ∷ record { from = pos 15; to = pos 16 } ∷ [],
          (record { from = pos 15; to = pos 16 }, "/bin/15-to-16") ∷ [],
        ))
unfolding find_migrations int_lt distance int_pred int_succ
down_listed = refl
