-- ===== src/Repo/OnlyOne.antt =====
-- kubo-master/repo/onlyone.go: open repositories shared by reference counting.
pub mod Sharing
mod Tests
use bock_ipfs.Base.{
  ltb, if◌then◌else◌, nat_eq, string_eq, ℕ, ◌+◌, ◌-◌, ◌%◌, ◌^◌, String, Option, none, some, List,
  [], ◌∷◌,
}
use bock_ipfs.Base.Dict.{Dict, lookup, insert, delete}

-- An error of the caller's `open` function, or of `Repo.Close`.
pub data RepoError : Type 0 where
  repo_error : String → RepoError

-- `type ref`: its key, its count (a uint32) and the repository, a handle.
pub record Ref : Type 0 where
  pub key : String
  pub refs : ℕ
  pub repo : ℕ

-- `type OnlyOne`. Callers keep pointers to a `ref` after it has left `active`, so the refs stand
-- in a heap. `closed` are the repositories on which `Repo.Close` was called, the last one first.
pub record OnlyOne : Type 0 where
  pub active : Dict String ℕ
  pub heap : Dict ℕ Ref
  pub next_ref : ℕ
  pub closed : List ℕ

abbrev pub empty : OnlyOne
empty = record { active = []; heap = []; next_ref = 0; closed = [] }

pub data Opened : Type 0 where
  opened : ℕ → Opened
  failed : RepoError → Opened

-- `item.refs++` on a uint32
add_ref : OnlyOne → ℕ → Option Ref → OnlyOne
add_ref o p none = o
add_ref o p (some r) = record o {
  heap = insert p (record r { refs = (r.refs + 1) % 2 ^ 32 }) o.heap;
}

-- the branch of `Open` where the key is new, by what `open` returned
open_new : OnlyOne → String → Opened → OnlyOne × Opened
open_new o key (failed e) = (o, failed e)
open_new o key (opened repo) = (
  record o {
    active = insert key o.next_ref o.active;
    heap = insert o.next_ref (record { key = key; refs = 1; repo = repo }) o.heap;
    next_ref = o.next_ref + 1;
  },
  opened o.next_ref,
)

-- `Open`: the second argument of the result is the pointer to the ref, or the error. The repository
-- opens only if the key is not active, so `open` is what the caller's function would return.
pub open_repo : OnlyOne → String → Opened → OnlyOne × Opened
unfolding add_ref open_new
open_repo o key outcome = elim (lookup key o.active) [
  | none ↦ open_new o key outcome
  | some p ↦ (add_ref o p (lookup p o.heap), opened p)
]

-- `ref.Close` on the ref that the pointer shows. `refs--` wraps round at 0 on a uint32.
close_ref : (ℕ → Option RepoError) → OnlyOne → ℕ → Option Ref → OnlyOne × Option RepoError
close_ref repo_close o p none = (o, none)
close_ref repo_close o p (some r) =
    let left = (r.refs + 2 ^ 32 - 1) % 2 ^ 32 in
    let o' : OnlyOne = record o { heap = insert p (record r { refs = left }) o.heap } in
    if ltb 0 left then (o', none) else (
      record o' { active = delete r.key o.active; closed = r.repo ∷ o.closed },
      repo_close r.repo,
    )

-- `Close`, with `repo_close` what the repository's own `Close` returns
pub close : (ℕ → Option RepoError) → OnlyOne → ℕ → OnlyOne × Option RepoError
unfolding close_ref
close repo_close o p = close_ref repo_close o p (lookup p o.heap)
