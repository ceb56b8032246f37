-- ===== src/Bootstrap/Adding.antt =====
-- The bootstrap list that `bootstrapAdd` leaves.
use bock_ipfs.Base.{
  str_eq, Bool-cases, Option-cases, string_eq, contains, contains-append, String, ◌≡◌, refl, sym,
  ap, ◌∙◌, subst, inl, inr, false, ◌||◌, Option, List, [], ◌∷◌, ◌++◌, append-nil, append_assoc,
  arith, eq_iff,
}
use bock_ipfs.Base.Results.{ok, ok_injective}
use bock_ipfs.Bootstrap.{append_new, Addresses, check_peers, bootstrap_add}

-- no text is listed twice
pub IsDistinct : List String → Type 0
IsDistinct [] = Unit
IsDistinct (s ∷ ss) = (contains ss s ≡ false) × IsDistinct ss

nil-IsDistinct : IsDistinct []
unfolding IsDistinct
nil-IsDistinct = tt

append-IsDistinct :
    (l : List String) (s : String) → contains l s ≡ false → IsDistinct l → IsDistinct (l ++ s ∷ [])
unfolding IsDistinct
append-IsDistinct [] s fresh h = (refl, tt)
append-IsDistinct (x ∷ l) s fresh h = (
  ground (arith, fresh, h.0, contains-append l (s ∷ []) x, eq_iff x s, eq_iff s x),
  append-IsDistinct l s (ground (arith, fresh)) h.1,
)

append_new-IsDistinct : (l ss : List String) → IsDistinct l → IsDistinct (append_new l ss)
unfolding append_new
append_new-IsDistinct l [] h = h
append_new-IsDistinct l (s ∷ ss) h = elim (Bool-cases (contains l s)) [
  | inl old ↦ rw (old, append_new) (append_new-IsDistinct l ss h)
  | inr fresh ↦
      rw (fresh, append_new)
        (append_new-IsDistinct (l ++ s ∷ []) ss (append-IsDistinct l s fresh h))
]

contains-append_new :
    (l ss : List String) (a : String) → contains (append_new l ss) a ≡ contains l a || contains ss a
unfolding append_new
contains-append_new l [] a = ground arith
contains-append_new l (s ∷ ss) a = elim (Bool-cases (contains l s)) [
  | inl old ↦ elim (Bool-cases (str_eq s a)) [
    | inl same ↦
        ground (arith, old, contains-append_new l ss a, ap (contains l) ((eq_iff s a).0 same))
    | inr differ ↦ ground (arith, old, contains-append_new l ss a, differ)
  ]
  | inr fresh ↦
      ground (arith, fresh, contains-append_new (l ++ s ∷ []) ss a, contains-append l (s ∷ []) a)
]

append_new_extends : (l ss : List String) → (rest : List String) × (append_new l ss ≡ l ++ rest)
unfolding append_new
append_new_extends l [] = ([], sym (append-nil l))
append_new_extends l (s ∷ ss) = elim (Bool-cases (contains l s)) [
  | inl old ↦ rw (old, append_new) (append_new_extends l ss)
  | inr fresh ↦
      let (rest, e) = append_new_extends (l ++ s ∷ []) ss in
      (s ∷ rest, rw (fresh, append_new) (e ∙ append_assoc l (s ∷ []) rest))
]

-- A `bootstrapAdd` that succeeds returns the given peers without repetition, also those that were in
-- the list before, whatever the help of the command says, and leaves a list that
-- begins with them, has no repetition, and holds exactly the given peers and those it held before.
pub bootstrap_add_lem :
    (lib : Addresses) (set_config : Option String) (bootstrap peers added : List String)
    → (bootstrap_add lib set_config bootstrap peers).0 ≡ ok added
    → ((rest : List String) × ((bootstrap_add lib set_config bootstrap peers).1 ≡ added ++ rest))
      × IsDistinct (bootstrap_add lib set_config bootstrap peers).1
      × ((a : String) → contains added a ≡ contains peers a)
      × ((a : String)
          → contains (bootstrap_add lib set_config bootstrap peers).1 a
            ≡ contains peers a || contains bootstrap a)
unfolding bootstrap_add
bootstrap_add_lem lib set_config bootstrap peers added h =
    elim (Option-cases (check_peers lib peers)) [
      | inr (e, bad) ↦ absurd (ground (arith, bad, h))
      | inl fine ↦ elim (Option-cases set_config) [
        | inr (e, bad) ↦ absurd (ground (arith, fine, bad, h))
        | inl written ↦
            let news = append_new [] peers in
            let all = append_new news bootstrap in
            let same = ok_injective (rw (fine, written, bootstrap_add) at h) in
            rw (fine, written, bootstrap_add)
              (subst
                (λ x.
                  ((rest : List String) × (all ≡ x ++ rest))
                  × IsDistinct all
                  × ((a : String) → contains x a ≡ contains peers a)
                  × ((a : String) → contains all a ≡ contains peers a || contains bootstrap a))
                same
                (
                  append_new_extends news bootstrap,
                  append_new-IsDistinct news bootstrap
                      (append_new-IsDistinct [] peers nil-IsDistinct),
                  (λ a. contains-append_new [] peers a),
                  (λ a.
                      contains-append_new news bootstrap a
                      ∙ ap (λ b. b || contains bootstrap a) (contains-append_new [] peers a)),
                ))
      ]
    ]
