-- ===== src/Repo/Migrations/Finding.antt =====
-- What `findMigrations` finds: every step between the two versions, in order.
use bock_ipfs.Base.{
  if◌then◌else◌, Option-cases, string_eq, ℕ, zero, suc, String, ◌≡◌, refl, ap, ◌∙◌, ◌⊎◌, inl, inr,
  Bool, true, false, Option, some, List, [], ◌∷◌, ◌++◌, append-nil, append_assoc, arith,
}
use bock_ipfs.Base.Results.{ok, err}
use bock_ipfs.Base.Int.{ℤ, pos, negsuc, int_beq, int_beq_iff}
use bock_ipfs.Base.Dict.{Dict}
use bock_ipfs.Repo.Migrations.Versions.{
  int_succ, int_pred, int_lt, distance, Migration, migration_eq,
}
use bock_ipfs.Repo.Migrations.{
  ctx_error, migration_at, next, record_path, find_loop, find_migrations,
}

-- the steps from a version, as many as are asked for
unfoldable pub chain : ℕ → Bool → ℤ → List Migration
unfolding migration_at next
chain zero down cur = []
chain (suc n) down cur = migration_at down cur ∷ chain n down (next down cur)

-- `to` does not lie behind `cur`
unfoldable pub IsAhead : Bool → ℤ → ℤ → Type 0
IsAhead down cur to = (if down then int_lt cur to else int_lt to cur) ≡ false

pub distance-next :
    (n : ℕ) (down : Bool) (cur to : ℤ)
    → IsAhead down cur to
    → distance cur to ≡ suc n
    → (distance (next down cur) to ≡ n) × IsAhead down (next down cur) to × (int_beq cur to ≡ false)
unfolding next int_succ int_pred int_lt distance IsAhead
distance-next n true (pos zero) (pos b) ahead d = ground (arith, ahead, d)
distance-next n true (pos (suc a)) (pos b) ahead d = ground (arith, ahead, d)
distance-next n true (pos zero) (negsuc b) ahead d = ground (arith, ahead, d)
distance-next n true (pos (suc a)) (negsuc b) ahead d = ground (arith, ahead, d)
distance-next n true (negsuc a) (pos b) ahead d = ground (arith, ahead, d)
distance-next n true (negsuc a) (negsuc b) ahead d = ground (arith, ahead, d)
distance-next n false (pos a) (pos b) ahead d = ground (arith, ahead, d)
distance-next n false (pos a) (negsuc b) ahead d = ground (arith, ahead, d)
distance-next n false (negsuc zero) (pos b) ahead d = ground (arith, ahead, d)
distance-next n false (negsuc (suc a)) (pos b) ahead d = ground (arith, ahead, d)
distance-next n false (negsuc zero) (negsuc b) ahead d = ground (arith, ahead, d)
distance-next n false (negsuc (suc a)) (negsuc b) ahead d = ground (arith, ahead, d)

pub distance-zero : (cur to : ℤ) → distance cur to ≡ 0 → cur ≡ to
unfolding distance
distance-zero (pos a) (pos b) d = ap pos (omega (arith, d))
distance-zero (pos a) (negsuc b) d = absurd (omega (arith, d))
distance-zero (negsuc a) (pos b) d = absurd (omega (arith, d))
distance-zero (negsuc a) (negsuc b) d = ap negsuc (omega (arith, d))

pub int_lt-IsAhead : (from to : ℤ) → IsAhead (int_lt to from) from to
unfolding int_lt IsAhead
int_lt-IsAhead (pos a) (pos b) = ground arith
int_lt-IsAhead (pos a) (negsuc b) = ground arith
int_lt-IsAhead (negsuc a) (pos b) = ground arith
int_lt-IsAhead (negsuc a) (negsuc b) = ground arith

-- the map of the binaries that the search path has
unfoldable pub recorded :
    (Migration → Option String) → List Migration → Dict Migration String → Dict Migration String
recorded look_path [] bins = bins
recorded look_path (m ∷ ms) bins = recorded look_path ms (record_path m (look_path m) bins)

module _ (look_path : Migration → Option String) (ctx_err : ℤ → Option String) where
  -- The loop ends with the steps to `to`, or with an error of the context.
  pub find_loop_lem :
      (n : ℕ) (down : Bool) (cur to : ℤ) (ms : List Migration) (bins : Dict Migration String)
      → IsAhead down cur to
      → distance cur to ≡ n
      → (find_loop look_path ctx_err n down cur to ms bins
          ≡ some (ok (ms ++ chain n down cur, recorded look_path (chain n down cur) bins)))
        ⊎ ((e : String) × (c : ℤ) × (ctx_err c ≡ some e)
            × (find_loop look_path ctx_err n down cur to ms bins ≡ some (err (ctx_error e))))
  unfolding find_loop chain recorded
  find_loop_lem zero down cur to ms bins ahead d =
      let same : int_beq cur to ≡ true = (int_beq_iff cur to).1 (distance-zero cur to d) in
      inl (ground (arith, same, append-nil ms))
  find_loop_lem (suc n) down cur to ms bins ahead d =
      let (d', ahead', differ) = distance-next n down cur to ahead d in
      elim (Option-cases (ctx_err cur)) [
        | inr (e, ended) ↦ inr (e, cur, ended, (ground (arith, differ, ended)))
        | inl going ↦
            elim (find_loop_lem n down (next down cur) to (ms ++ migration_at down cur ∷ [])
              (record_path (migration_at down cur) (look_path (migration_at down cur)) bins) ahead'
              d') [
                | inl done ↦ inl (
                    rw (differ, going, find_loop)
                      (done
                        ∙ ap
                            (λ l. some (
                              ok (
                                l,
                                recorded look_path (chain n down (next down cur)) (
                                    record_path (migration_at down cur)
                                      (look_path (migration_at down cur)) bins),
                              )))
                            (append_assoc ms (migration_at down cur ∷ [])
                              (chain n down (next down cur)))))
                | inr (e, c, ended, stop) ↦ inr (e, c, ended, (ground (arith, differ, going, stop)))
              ]
      ]

  -- `findMigrations` ends with the chain, or with an error of the context.
  pub find_migrations_run :
      (from to : ℤ)
      → (find_migrations look_path ctx_err from to
          ≡ some (
              ok (
                chain (distance from to) (int_lt to from) from,
                recorded look_path (chain (distance from to) (int_lt to from) from) [],
              )))
        ⊎ ((e : String) × (c : ℤ) × (ctx_err c ≡ some e)
            × (find_migrations look_path ctx_err from to ≡ some (err (ctx_error e))))
  unfolding find_migrations
  find_migrations_run from to =
      find_loop_lem (distance from to) (int_lt to from) from to [] [] (int_lt-IsAhead from to) refl
