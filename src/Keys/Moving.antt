-- ===== src/Keys/Moving.antt =====
-- The two writing halves of `Rename` in key.go: `Put` and `Delete`, and the branch with `Force`.
use bock_ipfs.Base.{
  Bool-cases, Option-cases, nat_eq, string_eq, String, ◌≡◌, sym, ap, ◌∙◌, subst, ◌≢◌, ◌⊎◌, inl, inr,
  Bool, true, false, none, arith,
}
use bock_ipfs.Base.Results.{ok, IsOk, Result-cases}
use bock_ipfs.Keys.Library.{KeyLib, KeystoreLaws}
use bock_ipfs.Keys.{Key, new_key, move_key, clear_target}

module _ (lib : KeyLib) (laws : KeystoreLaws lib) where
  open lib use {
    Store, PrivKey, PubKey, PeerId, ks_get, ks_put, ks_has, ks_delete, get_public,
    id_from_public_key,
  }

  pub move_key_other :
      (old new m : String) (k : PrivKey) (pid : PeerId) (over : Bool) (s : Store)
      → old ≢ m
      → new ≢ m
      → ks_get (move_key lib old new k pid over s).1 m ≡ ks_get s m
  unfolding move_key
  move_key_other old new m k pid over s old_ne new_ne =
      let s1 = (ks_put s new k).0 in
      elim (Option-cases (ks_put s new k).1) [
        | inr (x, bad) ↦ ground (arith, bad, laws.put_other s new m k new_ne)
        | inl fine ↦ elim (Option-cases (ks_delete s1 old).1) [
          | inl e ↦
              ground
                (arith, fine, e, laws.put_other s new m k new_ne, laws.delete_other s1 old m old_ne)
          | inr (x, e) ↦
              ground
                (arith, fine, e, laws.put_other s new m k new_ne, laws.delete_other s1 old m old_ne)
        ]
      ]

  pub clear_target_other :
      (new m : String) (s : Store) → new ≢ m → ks_get (clear_target lib new s).1 m ≡ ks_get s m
  unfolding clear_target
  clear_target_other new m s ne = elim (Result-cases (ks_has s new)) [
    | inr (x, bad) ↦ ground (arith, bad)
    | inl (b, fine) ↦ elim (Bool-cases b) [
      | inr absent ↦ ground (arith, fine, absent)
      | inl there ↦ elim (Option-cases (ks_delete s new).1) [
        | inl e ↦ ground (arith, fine, there, e, laws.delete_other s new m ne)
        | inr (x, e) ↦ ground (arith, fine, there, e, laws.delete_other s new m ne)
      ]
    ]
  ]

  -- A key that `move_key` has in hand is under the old or under the new name afterwards.
  pub move_key_keeps :
      (old new : String) (k : PrivKey) (pid : PeerId) (over : Bool) (s : Store)
      → new ≢ old
      → ks_get s old ≡ ok k
      → (ks_get (move_key lib old new k pid over s).1 old ≡ ok k)
        ⊎ (ks_get (move_key lib old new k pid over s).1 new ≡ ok k)
  unfolding move_key
  move_key_keeps old new k pid over s ne h =
      let s1 = (ks_put s new k).0 in
      let back : old ≢ new = λ same. ne (sym same) in
      elim (Option-cases (ks_put s new k).1) [
        | inr (x, bad) ↦ inl (ground (arith, bad, laws.put_other s new old k ne))
        | inl fine ↦ elim (Option-cases (ks_delete s1 old).1) [
          | inl e ↦ inr (
              ground
                (arith, fine, e, laws.put_stores s new k fine, laws.delete_other s1 old new back))
          | inr (x, e) ↦ inr (
              ground
                (arith, fine, e, laws.put_stores s new k fine, laws.delete_other s1 old new back))
        ]
      ]

  pub move_key_ok :
      (old new : String) (k : PrivKey) (pid : PeerId) (over : Bool) (s : Store) (r : Key lib × Bool)
      → new ≢ old
      → (move_key lib old new k pid over s).0 ≡ ok r
      → (r.1 ≡ over)
        × (ks_put s new k).1 ≡ none
        × (ks_get (move_key lib old new k pid over s).1 new ≡ ok k)
        × ¬ IsOk (ks_get (move_key lib old new k pid over s).1 old)
        × (new_key lib new pid ≡ ok r.0)
  unfolding move_key
  move_key_ok old new k pid over s r ne h =
      let s1 = (ks_put s new k).0 in
      let back : old ≢ new = λ same. ne (sym same) in
      elim (Option-cases (ks_put s new k).1) [
        | inr (x, bad) ↦ absurd (ground (arith, h, bad))
        | inl fine ↦ elim (Option-cases (ks_delete s1 old).1) [
          | inr (x, e) ↦ absurd (ground (arith, h, fine, e))
          | inl e ↦ elim (Result-cases (new_key lib new pid)) [
            | inr (x, named) ↦ absurd (ground (arith, h, fine, e, named))
            | inl (key, named) ↦ (
              ground (arith, h, fine, e, named),
              fine,
              ground
                  (arith, fine, e, laws.put_stores s new k fine, laws.delete_other s1 old new back),
              (λ there.
                  laws.delete_removes s1 old e
                    (subst (λ t. IsOk (ks_get t old)) (ground (arith, fine, e)) there)),
              ground (arith, h, fine, e, named),
            )
          ]
        ]
      ]

  -- What `clear_target` reports is whether the new name was taken.
  pub clear_target_ok :
      (new : String) (over : Bool) (s : Store)
      → (clear_target lib new s).0 ≡ ok over
      → (over ≡ true → IsOk (ks_get s new))
        × (over ≡ false → ks_get (clear_target lib new s).1 new ≡ ks_get s new)
  unfolding clear_target
  clear_target_ok new over s h = elim (Result-cases (ks_has s new)) [
    | inr (x, bad) ↦ absurd (ground (arith, h, bad))
    | inl (b, fine) ↦ elim (Bool-cases b) [
      | inr absent ↦ (
        (λ is. absurd (ground (arith, h, fine, absent, is))),
        (λ is. ground (arith, fine, absent)),
      )
      | inl there ↦ (
        (λ is. laws.has_true s new (fine ∙ ap ok there)),
        (λ is. elim (Option-cases (ks_delete s new).1) [
          | inl e ↦ absurd (ground (arith, h, fine, there, e, is))
          | inr (x, e) ↦ absurd (ground (arith, h, fine, there, e, is))
        ]),
      )
    ]
  ]
