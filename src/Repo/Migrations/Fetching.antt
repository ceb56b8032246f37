-- ===== src/Repo/Migrations/Fetching.antt =====
-- Every step that `RunMigration` runs has a binary: found on the search path, or fetched.
use bock_ipfs.Base.{
  ltb, str_eq, Bool-cases, Option-cases, string_eq, length, In, is_empty, ◌+◌, ◌≤◌, String, ◌≡◌,
  sym, subst, ◌⊎◌, inl, inr, true, Option, some, List, [], ◌∷◌, arith,
}
use bock_ipfs.Base.Dict.{Dict, lookup, insert, has_key, lookup-insert}
use bock_ipfs.Repo.Migrations.Versions.{Migration, migration_beq, migration_beq_iff, migration_eq}
use bock_ipfs.Base.Results.{Result, ok, err, ok_injective}
use bock_ipfs.Repo.Migrations.{
  record_path, missing_of, failed_of, add_fetched, fetch_missing, Machine, complete,
}
use bock_ipfs.Repo.Migrations.Finding.{recorded}

unfoldable pub Present : Dict Migration String → Migration → Type 0
Present bins m = (p : String) × (lookup m bins ≡ some p)

insert-Present :
    (bins : Dict Migration String) (k m : Migration) (v : String)
    → (k ≡ m) ⊎ Present bins m
    → Present (insert k v bins) m
unfolding Present
insert-Present bins k m v (inl same) =
    (v, ground (arith, lookup-insert k m v bins, migration_beq_iff k m, same))
insert-Present bins k m v (inr (p, h)) = elim (Bool-cases (migration_beq k m)) [
  | inl same ↦ (v, ground (arith, lookup-insert k m v bins, same))
  | inr differ ↦ (p, ground (arith, lookup-insert k m v bins, differ, h))
]

length-insert :
    (bins : Dict Migration String) (k : Migration) (v : String)
    → length (insert k v bins) ≤ length bins + 1
unfolding insert
length-insert [] k v = omega arith
length-insert ((j, u) ∷ bins) k v = ground (arith, length-insert bins k v)

module _ (look_path : Migration → Option String) where
  record_path-Present :
      (bins : Dict Migration String) (k m : Migration)
      → Present bins m
      → Present (record_path k (look_path k) bins) m
  unfolding record_path
  record_path-Present bins k m h = elim (Option-cases (look_path k)) [
    | inl e ↦ subst (λ b. Present (record_path k b bins) m) (sym e) h
    | inr (v, e) ↦
        subst (λ b. Present (record_path k b bins) m) (sym e) (insert-Present bins k m v (inr h))
  ]

  recorded-Present :
      (ms : List Migration) (bins : Dict Migration String) (m : Migration)
      → Present bins m
      → Present (recorded look_path ms bins) m
  unfolding recorded
  recorded-Present [] bins m h = h
  recorded-Present (k ∷ ms) bins m h =
      recorded-Present ms (record_path k (look_path k) bins) m (record_path-Present bins k m h)

  length-recorded :
      (ms : List Migration) (bins : Dict Migration String)
      → length (recorded look_path ms bins) ≤ length bins + length ms
  unfolding recorded record_path
  length-recorded [] bins = omega arith
  length-recorded (k ∷ ms) bins = elim (Option-cases (look_path k)) [
    | inl e ↦ ground (arith, e, length-recorded ms bins)
    | inr (v, e) ↦ ground (arith, e, length-recorded ms (insert k v bins), length-insert bins k v)
  ]

  -- a map with as many entries as there were steps has one for every step
  recorded_full :
      (ms : List Migration) (bins : Dict Migration String) (m : Migration)
      → length bins + length ms ≤ length (recorded look_path ms bins)
      → In m ms
      → Present (recorded look_path ms bins) m
  unfolding recorded record_path
  recorded_full [] bins m h i = absurd i
  recorded_full (k ∷ ms) bins m h i = elim (Option-cases (look_path k)) [
    | inl e ↦ absurd (ground (arith, e, h, length-recorded ms bins))
    | inr (v, e) ↦
        let h' : length (insert k v bins) + length ms
            ≤ length (recorded look_path ms (insert k v bins)) =
          ground (arith, e, h, length-insert bins k v) in
        subst (λ b. Present (recorded look_path ms (record_path k b bins)) m) (sym e)
          (elim i [
            | inl same ↦
                recorded-Present ms (insert k v bins) m (insert-Present bins k m v (inl same))
            | inr later ↦ recorded_full ms (insert k v bins) m h' later
          ])
  ]

module _ (fetch : Migration → Option String) where
  add_fetched-Present :
      (ms : List Migration) (bins : Dict Migration String) (m : Migration)
      → Present bins m
      → Present (add_fetched fetch ms bins) m
  unfolding add_fetched
  add_fetched-Present [] bins m h = h
  add_fetched-Present (k ∷ ms) bins m h = elim (Option-cases (fetch k)) [
    | inl e ↦ rw (e, add_fetched) (add_fetched-Present ms bins m h)
    | inr (v, e) ↦
        rw (e, add_fetched)
          (add_fetched-Present ms (insert k v bins) m (insert-Present bins k m v (inr h)))
  ]

  -- after a download without failures every name has its binary
  fetched_all :
      (ms : List Migration) (bins : Dict Migration String) (m : Migration)
      → is_empty (failed_of fetch ms) ≡ true
      → In m ms
      → Present (add_fetched fetch ms bins) m
  unfolding add_fetched failed_of
  fetched_all [] bins m none_failed i = absurd i
  fetched_all (k ∷ ms) bins m none_failed i = elim (Option-cases (fetch k)) [
    | inl e ↦ absurd (ground (arith, e, none_failed))
    | inr (v, e) ↦
        rw (e, add_fetched)
          (elim i [
            | inl same ↦
                add_fetched-Present ms (insert k v bins) m (insert-Present bins k m v (inl same))
            | inr later ↦
                fetched_all ms (insert k v bins) m (rw (e, failed_of) at none_failed) later
          ])
  ]

missing_or_Present :
    (bins : Dict Migration String) (ms : List Migration) (m : Migration)
    → In m ms
    → Present bins m ⊎ In m (missing_of bins ms)
unfolding missing_of has_key Present
missing_or_Present bins [] m i = absurd i
missing_or_Present bins (k ∷ ms) m i = elim (Option-cases (lookup k bins)) [
  | inr (v, e) ↦ elim i [
    | inl same ↦ inl (v, subst (λ j. lookup j bins ≡ some v) same e)
    | inr later ↦ elim (missing_or_Present bins ms m later) [
      | inl h ↦ inl h
      | inr h ↦ inr (ground (arith, e, h))
    ]
  ]
  | inl e ↦ elim i [
    | inl same ↦ inr (rw (e, missing_of, has_key) (inl same))
    | inr later ↦ elim (missing_or_Present bins ms m later) [
      | inl h ↦ inl h
      | inr h ↦ inr (rw (e, missing_of, has_key) (inr h))
    ]
  ]
]

fetch_missing-Present :
    (osv : Result String String) (ended : Option String) (fetch : Migration → Option String)
    → (bins done : Dict Migration String) (ms : List Migration)
    → fetch_missing osv ended fetch (missing_of bins ms) bins ≡ ok done
    → (m : Migration) → In m ms
    → Present done m
unfolding fetch_missing
fetch_missing-Present (err e) ended fetch bins done ms h m i = absurd (cc h)
fetch_missing-Present (ok osv) ended fetch bins done ms h m i =
    elim (Bool-cases (str_eq osv "linux-musl")) [
      | inl musl ↦ absurd (cc (rw (musl, fetch_missing) at h))
      | inr known ↦ elim (Bool-cases (is_empty (failed_of fetch (missing_of bins ms)))) [
        | inr fails ↦ absurd (cc (rw (known, fails, fetch_missing) at h))
        | inl none_failed ↦
            let same : add_fetched fetch (missing_of bins ms) bins ≡ done =
              ok_injective (rw (known, none_failed, fetch_missing) at h) in
            subst (λ b. Present b m) same
              (elim (missing_or_Present bins ms m i) [
                | inl h' ↦ add_fetched-Present fetch (missing_of bins ms) bins m h'
                | inr j ↦ fetched_all fetch (missing_of bins ms) bins m none_failed j
              ])
      ]
    ]

-- The map with which `RunMigration` runs the steps has a binary for each of them.
pub complete-Present :
    {Dir : Type 0} (w : Machine Dir) (ms : List Migration) (bins : Dict Migration String)
    → complete w ms (recorded w.look_path ms []) ≡ ok bins
    → (m : Migration) → In m ms
    → Present bins m
unfolding complete fetch_missing
complete-Present w ms bins h m i =
    let found = recorded w.look_path ms [] in
    elim (Bool-cases (ltb (length found) (length ms))) [
      | inr enough ↦
          let same : found ≡ bins = ok_injective (rw (enough, complete) at h) in
          subst (λ b. Present b m) same
            (recorded_full w.look_path ms [] m (ground (arith, enough)) i)
      | inl few ↦ elim (Option-cases w.mkdir_temp) [
        | inr (e, bad) ↦ absurd (cc (rw (few, bad, complete) at h))
        | inl made ↦
            fetch_missing-Present w.osv w.fetch_ended w.fetch found bins ms
              (rw (few, made, complete) at h) m i
      ]
    ]
