-- ===== src/Repo/Migrations/Versions.antt =====
-- Versions of a repository, which are integers, and the migrations between two of them.
use bock_ipfs.Base.{ltb, Eq, ℕ, zero, suc, ◌+◌, ◌-◌, ◌≡◌, ◌↔◌, Bool, true, false, ◌&&◌, arith}
use bock_ipfs.Base.Int.{ℤ, pos, negsuc, int_beq, int_beq_iff}

unfoldable pub int_succ : ℤ → ℤ
int_succ (pos n) = pos (suc n)
int_succ (negsuc zero) = pos zero
int_succ (negsuc (suc n)) = negsuc n

unfoldable pub int_pred : ℤ → ℤ
int_pred (pos zero) = negsuc zero
int_pred (pos (suc n)) = pos n
int_pred (negsuc n) = negsuc (suc n)

-- `a < b`
unfoldable pub int_lt : ℤ → ℤ → Bool
int_lt (pos a) (pos b) = ltb a b
int_lt (pos a) (negsuc b) = false
int_lt (negsuc a) (pos b) = true
int_lt (negsuc a) (negsuc b) = ltb b a

-- the number of steps between two versions
unfoldable pub distance : ℤ → ℤ → ℕ
distance (pos a) (pos b) = (a - b) + (b - a)
distance (pos a) (negsuc b) = a + b + 1
distance (negsuc a) (pos b) = a + b + 1
distance (negsuc a) (negsuc b) = (a - b) + (b - a)

-- A migration, named by its lower and its upper version.
pub record Migration : Type 0 where
  pub from : ℤ
  pub to : ℤ

abbrev pub migration_beq : Migration → Migration → Bool
migration_beq a b = int_beq a.from b.from && int_beq a.to b.to

pub migration_beq_iff : (a b : Migration) → (migration_beq a b ≡ true) ↔ (a ≡ b)
migration_beq_iff a b = ground (arith, int_beq_iff a.from b.from, int_beq_iff a.to b.to)

instance abbrev pub migration_eq : Eq Migration
migration_eq = record { beq = migration_beq; beq_iff = migration_beq_iff }
