-- ===== src/Repo/OnlyOne/Tests.antt =====
-- Runs of the shared repositories, and instances of the theorems.
use bock_ipfs.Base.{nat_eq, string_eq, ℕ, ◌-◌, ◌^◌, ◌≡◌, refl, Option, none, [], ◌∷◌, arith}
use bock_ipfs.Base.Dict.{lookup, insert, delete}
use bock_ipfs.Repo.OnlyOne.{RepoError, repo_error, OnlyOne, empty, opened, failed, open_repo, close}
use bock_ipfs.Repo.OnlyOne.Sharing.{
  IsSound, empty-IsSound, refs_of, close-open_repo, open_repo-IsSound, opens, closes, start,
  more_uses, Reach-IsSound,
}

abbrev no_error : ℕ → Option RepoError
no_error repo = none

abbrev one_open : OnlyOne
one_open = (open_repo empty "/repo" (opened 5)).0

-- two opens and two closes of one key close its repository once
open_twice_close_twice :
    let two = (open_repo one_open "/repo" (failed (repo_error "unused"))).0 in
    let first = close no_error two 0 in
    let second = close no_error first.0 0 in
    (first.0.closed ≡ []) × (second.0.closed ≡ 5 ∷ []) × (second.0.active ≡ [])
unfolding open_repo close lookup insert delete
open_twice_close_twice = (refl, refl, refl)

one_open-IsSound : IsSound one_open
unfolding lookup
one_open-IsSound =
    open_repo-IsSound empty "/repo" (opened 5) empty-IsSound (λ p h. ground (arith, h))

close-open_repo_example :
    let again = open_repo one_open "/repo" (failed (repo_error "unused")) in
    (again.1 ≡ opened 0) × (refs_of again.0 0 ≡ 2) × (close no_error again.0 0 ≡ (one_open, none))
unfolding open_repo lookup insert
close-open_repo_example =
    close-open_repo one_open "/repo" (failed (repo_error "unused")) one_open-IsSound no_error 0 refl
      (omega arith)

-- the ref is closed once too often
abbrev over_closed : OnlyOne
over_closed = (close no_error (close no_error one_open 0).0 0).0

-- its count has wrapped round, and its key can be opened again
over_closed_run :
    (refs_of over_closed 0 ≡ 2 ^ 32 - 1) × ((open_repo over_closed "/repo" (opened 6)).1 ≡ opened 1)
unfolding open_repo close lookup insert delete
over_closed_run = (refl, refl)

Reach-IsSound_example : IsSound (open_repo over_closed "/repo" (opened 6)).0
unfolding lookup open_repo close insert delete
Reach-IsSound_example = Reach-IsSound (
    more_uses
      (more_uses
        (more_uses (more_uses start (opens "/repo" (opened 5) (λ p h. ground (arith, h))))
          (closes no_error 0))
        (closes no_error 0))
      (opens "/repo" (opened 6) (λ p h. ground (arith, h))))
