-- ===== src/Repo/OnlyOne/Sharing.antt =====
-- One repository to a key: it is opened once, shared, and closed with its last reference.
use bock_ipfs.Base.{
  Option-cases, nat_eq, string_eq, ℕ, ◌+◌, ◌-◌, ◌%◌, ◌^◌, ◌<◌, String, ◌≡◌, inl, inr, Option, none,
  some, ◌∷◌, arith, eq_iff,
}
use bock_ipfs.Base.Dict.{
  lookup, insert, lookup-insert, lookup-delete, insert-insert, insert_same, lookup-insert_self,
}
use bock_ipfs.Repo.OnlyOne.{
  RepoError, Ref, OnlyOne, empty, Opened, opened, failed, add_ref, open_new, open_repo, close,
}

-- a ref of the key `k` that is held by somebody
abbrev pub Held : String → Option Ref → Type 0
Held k none = ⊥
Held k (some r) = (r.key ≡ k) × (0 < r.refs) × (r.refs < 2 ^ 32)

-- A key's entry points to a ref of that key which is held, and new pointers are unused.
pub record IsSound (o : OnlyOne) : Type 0 where
  pub held : (k : String) (p : ℕ) → lookup k o.active ≡ some p → Held k (lookup p o.heap)
  pub allocated : (p : ℕ) (r : Ref) → lookup p o.heap ≡ some r → p < o.next_ref

pub empty-IsSound : IsSound empty
unfolding lookup
empty-IsSound = record { held = λ k p h. cc; allocated = λ p r h. cc }

-- how often the repository of a pointer is held
abbrev pub refs_of : OnlyOne → ℕ → ℕ
refs_of o p = elim (lookup p o.heap) [ none ↦ 0 | some r ↦ r.refs ]

abbrev more : Ref → Ref
more r = record r { refs = (r.refs + 1) % 2 ^ 32 }

abbrev fewer : Ref → Ref
fewer r = record r { refs = (r.refs + 2 ^ 32 - 1) % 2 ^ 32 }

module _ (o : OnlyOne) (k : String) (outcome : Opened) (sound : IsSound o) where
  -- Opening an active key gives the ref that is there, whatever the opener would do, and closing
  -- that again restores the state exactly and closes no repository.
  pub close-open_repo :
      (repo_close : ℕ → Option RepoError) (p : ℕ)
      → lookup k o.active ≡ some p
      → refs_of o p + 1 < 2 ^ 32
      → ((open_repo o k outcome).1 ≡ opened p)
        × (refs_of (open_repo o k outcome).0 p ≡ refs_of o p + 1)
        × (close repo_close (open_repo o k outcome).0 p ≡ (o, none))
  unfolding open_repo close
  close-open_repo repo_close p active room = elim (Option-cases (lookup p o.heap)) [
    | inl dangling ↦ absurd (ground (arith, dangling, sound.held k p active))
    | inr (r, stored) ↦ (
      ground (arith, active),
      ground (arith, active, stored, sound.held k p active, lookup-insert_self p (more r) o.heap),
      ground (
        arith,
        active,
        stored,
        sound.held k p active,
        lookup-insert_self p (more r) o.heap,
        insert-insert p r (more r) o.heap,
        insert_same p r o.heap stored,
      ),
    )
  ]

  -- Opening a key that is not active calls the opener: its error changes nothing, its repository
  -- gets a new ref that is held once, and closing that calls the repository's own `Close`, returns
  -- what it returns and frees the key.
  pub open_repo_new :
      (repo_close : ℕ → Option RepoError)
      → lookup k o.active ≡ none
      → ((e : RepoError) → outcome ≡ failed e → open_repo o k outcome ≡ (o, failed e))
        × ((repo : ℕ)
            → outcome ≡ opened repo
            → ((open_repo o k outcome).1 ≡ opened o.next_ref)
              × (lookup k (open_repo o k outcome).0.active ≡ some o.next_ref)
              × (let (o', e) = close repo_close (open_repo o k outcome).0 o.next_ref in
                  (e ≡ repo_close repo)
                  × (o'.closed ≡ repo ∷ o.closed)
                  × ((j : String) → lookup j o'.active ≡ lookup j o.active)))
  unfolding open_repo close
  open_repo_new repo_close free = (
    λ e failing. ground (arith, free, failing),
    λ repo fine.
        let named = lookup-insert_self k o.next_ref o.active in
        let stored =
          lookup-insert_self o.next_ref (record { key = k; refs = 1; repo = repo }) o.heap in
        (
          ground (arith, free, fine),
          ground (arith, free, fine, named),
          (
            ground (arith, free, fine, stored),
            ground (arith, free, fine, stored),
            λ j. ground (
              arith,
              free,
              fine,
              stored,
              lookup-delete k j (insert k o.next_ref o.active),
              lookup-insert k j o.next_ref o.active,
              eq_iff k j,
            ),
          ),
        ),
  )

add_ref-IsSound :
    (o : OnlyOne) (p : ℕ)
    → IsSound o
    → refs_of o p + 1 < 2 ^ 32
    → IsSound (add_ref o p (lookup p o.heap))
unfolding add_ref
add_ref-IsSound o p sound room = elim (Option-cases (lookup p o.heap)) [
  | inl dangling ↦ rw dangling sound
  | inr (r, stored) ↦ rw stored (record {
    held = λ j q. ground (arith, room, stored, sound.held j q, lookup-insert p q (more r) o.heap);
    allocated = λ q t. ground (
      arith,
      stored,
      lookup-insert p q (more r) o.heap,
      sound.allocated q t,
      sound.allocated p r stored,
    );
  })
]

fresh : (o : OnlyOne) → IsSound o → lookup o.next_ref o.heap ≡ none
fresh o sound = elim (Option-cases (lookup o.next_ref o.heap)) [
  | inl free ↦ free
  | inr (r, e) ↦ absurd (omega (arith, sound.allocated o.next_ref r e))
]

open_new-IsSound :
    (o : OnlyOne) (k : String) (outcome : Opened) → IsSound o → IsSound (open_new o k outcome).0
unfolding open_new
open_new-IsSound o k (failed e) sound = sound
open_new-IsSound o k (opened repo) sound =
    let new : Ref = record { key = k; refs = 1; repo = repo } in
    record {
      held = λ j q h. ground (
        arith,
        sound.held j q,
        lookup-insert o.next_ref q new o.heap,
        lookup-insert k j o.next_ref o.active,
        eq_iff k j,
        fresh o sound,
      );
      allocated = λ q t. ground (arith, lookup-insert o.next_ref q new o.heap, sound.allocated q t);
    }

-- Opening keeps the state sound, unless the count of the key's ref would wrap round at 2^32.
pub open_repo-IsSound :
    (o : OnlyOne) (k : String) (outcome : Opened)
    → IsSound o
    → ((p : ℕ) → lookup k o.active ≡ some p → refs_of o p + 1 < 2 ^ 32)
    → IsSound (open_repo o k outcome).0
unfolding open_repo
open_repo-IsSound o k outcome sound room = elim (Option-cases (lookup k o.active)) [
  | inl free ↦ rw (free, open_repo) (open_new-IsSound o k outcome sound)
  | inr (p, active) ↦ rw (active, open_repo) (add_ref-IsSound o p sound (room p active))
]

-- Closing keeps the state sound, also when a ref is closed once too often.
pub close-IsSound :
    (repo_close : ℕ → Option RepoError) (o : OnlyOne) (p : ℕ)
    → IsSound o
    → IsSound (close repo_close o p).0
unfolding close
close-IsSound repo_close o p sound = elim (Option-cases (lookup p o.heap)) [
  | inl dangling ↦ rw (dangling, close) sound
  | inr (r, stored) ↦ record {
    held = λ j q. ground (
      arith,
      stored,
      sound.held j q,
      lookup-insert p q (fewer r) o.heap,
      lookup-delete r.key j o.active,
      eq_iff r.key j,
    );
    allocated = λ q t. ground (
      arith,
      stored,
      lookup-insert p q (fewer r) o.heap,
      sound.allocated q t,
      sound.allocated p r stored,
    );
  }
]

-- One use of the repositories: an open of a key, unless it is active and its count would wrap round,
-- or a `Close` on any pointer, whatever the opener and the repositories return.
pub data Step (o : OnlyOne) : OnlyOne → Type 0 where
  opens :
      (k : String) (outcome : Opened)
      → ((p : ℕ) → lookup k o.active ≡ some p → refs_of o p + 1 < 2 ^ 32)
      → Step o (open_repo o k outcome).0
  closes : (repo_close : ℕ → Option RepoError) (p : ℕ) → Step o (close repo_close o p).0

pub data Reach : OnlyOne → Type 0 where
  start : Reach empty
  more_uses : {o o' : OnlyOne} → Reach o → Step o o' → Reach o'

Step-IsSound : {o o' : OnlyOne} → Step o o' → IsSound o → IsSound o'
Step-IsSound (opens k outcome room) sound = open_repo-IsSound _ k outcome sound room
Step-IsSound (closes repo_close p) sound = close-IsSound repo_close _ p sound

-- After any uses in which no count of an active key wraps round at 2^32, also after a ref was closed
-- once too often and its key or others were opened again, an active key's entry points to a
-- ref of that key whose count is positive, so that a repository is never shared after its last
-- reference, and new pointers are unused.
pub Reach-IsSound : {o : OnlyOne} → Reach o → IsSound o
Reach-IsSound start = empty-IsSound
Reach-IsSound (more_uses old step) = Step-IsSound step (Reach-IsSound old)
