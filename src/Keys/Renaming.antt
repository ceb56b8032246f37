-- ===== src/Keys/Renaming.antt =====
-- What `Rename` of key.go does to the keystore.
use bock_ipfs.Base.{
  str_eq, Bool-cases, nat_eq, string_eq, String, ◌≡◌, refl, sym, ap, ◌∙◌, subst, ◌≢◌, ◌⊎◌, inl, inr,
  Bool, true, false, eq_iff,
}
use bock_ipfs.Base.Results.{Result, ok, err, IsOk, Result-cases}
use bock_ipfs.Keys.Library.{KeyLib, KeystoreLaws}
use bock_ipfs.Keys.{
  KeyError, cannot_rename_self, cannot_overwrite_self, not_found, lib_error, Key, new_key, move_key,
  clear_target, forced_move, rename_found, rename,
}
use bock_ipfs.Keys.Moving.{
  move_key_other, clear_target_other, move_key_keeps, move_key_ok, clear_target_ok,
}

module _ (lib : KeyLib) (laws : KeystoreLaws lib) where
  open lib use {
    Store, PrivKey, PubKey, PeerId, ks_get, ks_put, ks_has, ks_delete, get_public,
    id_from_public_key,
  }

  -- The keystore `t` is `s` but for the key of one name.
  Elsewhere : String → Store → Store → Type 0
  Elsewhere new s t = (m : String) → new ≢ m → ks_get t m ≡ ks_get s m

  -- a result that `Rename` gives before it moves the key
  record Early (old new : String) (s : Store) (r : Result KeyError (Key lib × Bool)) (t : Store)
      : Type 0 where
    others : Elsewhere new s t
    untouched : new ≢ old ⊎ (t ≡ s)
    fails : new ≢ old → ¬ IsOk r

  -- what is known when `Rename` calls `Put`
  record Moving (old new : String) (force : Bool) (s : Store) (k : PrivKey) (pid : PeerId)
      (over : Bool) (t : Store) : Type 0 where
    found : ks_get s old ≡ ok k
    differ : new ≢ old
    others : Elsewhere new s t
    described : id_from_public_key (get_public k) ≡ ok pid
    taken : over ≡ true → (force ≡ true) × IsOk (ks_get s new)
    kept : over ≡ false → ks_get t new ≡ ks_get s new

  module _ (P : Result KeyError (Key lib × Bool) × Store → Type 0) (old new : String) (force : Bool)
      (s : Store)
      (early : (r : Result KeyError (Key lib × Bool)) (t : Store) → Early old new s r t → P (r, t))
      (moved : (k : PrivKey) (pid : PeerId) (over : Bool) (t : Store)
        → Moving old new force s k pid over t
        → P (move_key lib old new k pid over t)) where
    forced_by :
        (k : PrivKey) (pid : PeerId) (p : Result KeyError Bool × Store)
        → new ≢ old
        → Elsewhere new s p.1
        → ((over : Bool) → p.0 ≡ ok over → Moving old new force s k pid over p.1)
        → P (forced_move lib old new k pid p)
    unfolding forced_move
    forced_by k pid (err e, t) ne there moving =
        early (err e) t (record { others = there; untouched = inl ne; fails = λ _ bad. bad })
    forced_by k pid (ok over, t) ne there moving = moved k pid over t (moving over refl)

    stopped : (e : KeyError) → P (err e, s)
    unfolding Elsewhere
    stopped e =
        early (err e) s
          (record { others = λ m ne. refl; untouched = inr refl; fails = λ _ bad. bad })

    found_by : (k : PrivKey) → ks_get s old ≡ ok k → P (rename_found lib old new force k s)
    unfolding rename_found Elsewhere
    found_by k found = elim (Result-cases (id_from_public_key (get_public k))) [
      | inr (e, bad) ↦ rw (bad, rename_found) (stopped (lib_error e))
      | inl (pid, fine) ↦ elim (Bool-cases (str_eq new old)) [
        | inl same ↦
            rw (fine, same, rename_found)
              (early _ s (record {
                others = λ m ne. refl;
                untouched = inr refl;
                fails = λ ne. absurd (ne ((eq_iff new old).0 same));
              }))
        | inr apart ↦
            let ne : new ≢ old = λ same. absurd (cc (apart, (eq_iff new old).1 same)) in
            elim (Bool-cases force) [
              | inr gentle ↦
                  rw (fine, apart, gentle, rename_found, forced_move)
                    (moved k pid false s (record {
                      found = found;
                      differ = ne;
                      others = λ m ne. refl;
                      described = fine;
                      taken = λ is. absurd (cc is);
                      kept = λ is. refl;
                    }))
              | inl forced ↦
                  rw (fine, apart, forced, rename_found)
                    (forced_by k pid (clear_target lib new s) ne
                      (λ m. clear_target_other lib laws new m s)
                      (λ over cleared. record {
                        found = found;
                        differ = ne;
                        others = λ m. clear_target_other lib laws new m s;
                        described = fine;
                        taken = λ is. (forced, (clear_target_ok lib laws new over s cleared).0 is);
                        kept = (clear_target_ok lib laws new over s cleared).1;
                      }))
            ]
      ]
    ]

    -- `Rename` ends early or moves the key.
    by_branch : P (rename lib old new force s)
    unfolding rename
    by_branch = elim (Bool-cases (str_eq old "self")) [
      | inl a ↦ rw (a, rename) (stopped cannot_rename_self)
      | inr a ↦ elim (Bool-cases (str_eq new "self")) [
        | inl b ↦ rw (a, b, rename) (stopped cannot_overwrite_self)
        | inr b ↦ elim (Result-cases (ks_get s old)) [
          | inr (e, gone) ↦ rw (a, b, gone, rename) (stopped (not_found old))
          | inl (k, found) ↦ rw (a, b, found, rename) (found_by k found)
        ]
      ]
    ]

  -- `Rename`, whether it succeeds or fails, leaves every key as it was whose name is neither of the
  -- two names it is given.
  pub rename_other :
      (old new m : String) (force : Bool) (s : Store)
      → old ≢ m
      → new ≢ m
      → ks_get (rename lib old new force s).1 m ≡ ks_get s m
  unfolding Elsewhere
  rename_other old new m force s old_ne new_ne =
      by_branch (λ p. ks_get p.1 m ≡ ks_get s m) old new force s (λ r t e. e.others m new_ne)
        (λ k pid over t e.
          move_key_other lib laws old new m k pid over t old_ne new_ne ∙ e.others m new_ne)

  -- `Rename` never loses the key that it renames: a key that is stored under the old name is, whether
  -- it succeeds or fails, afterwards under the old name or under the new one.
  pub rename_keeps :
      (old new : String) (force : Bool) (s : Store) (k : PrivKey)
      → ks_get s old ≡ ok k
      → (ks_get (rename lib old new force s).1 old ≡ ok k)
        ⊎ (ks_get (rename lib old new force s).1 new ≡ ok k)
  unfolding Elsewhere
  rename_keeps old new force s k h =
      by_branch (λ p. (ks_get p.1 old ≡ ok k) ⊎ (ks_get p.1 new ≡ ok k)) old new force s
        (λ r t e. inl (elim e.untouched [
          | inl ne ↦ e.others old ne ∙ h
          | inr same ↦ ap (λ u. ks_get u old) same ∙ h
        ]))
        (λ k' pid over t e.
          subst
            (λ z.
              (ks_get (move_key lib old new k' pid over t).1 old ≡ z)
              ⊎ (ks_get (move_key lib old new k' pid over t).1 new ≡ z))
            (sym e.found ∙ h)
            (move_key_keeps lib laws old new k' pid over t e.differ
              (e.others old e.differ ∙ e.found)))

  -- The outcome `p` of a `Rename` has the key of the old name under the new name and none under the
  -- old one, and `r` describes that key by the new name and tells whether the new name was taken,
  -- which only `Force` allows.
  pub IsRenamed :
      String
      → String
      → Bool
      → Store
      → Result KeyError (Key lib × Bool) × Store
      → Key lib × Bool
      → Type 0
  IsRenamed old new force s p r =
      ((k : PrivKey) × (pid : PeerId) × (ks_get s old ≡ ok k)
        × (ks_get p.1 new ≡ ok k)
        × (id_from_public_key (get_public k) ≡ ok pid)
        × (new_key lib new pid ≡ ok r.0))
      × ¬ IsOk (ks_get p.1 old)
      × (r.1 ≡ true → (force ≡ true) × IsOk (ks_get s new))
      × (r.1 ≡ false → ¬ IsOk (ks_get s new))

  -- A `Rename` between two different names that succeeds leaves the key of the old name under the new
  -- name and none under the old one, and describes that key by the new name. It reports that it
  -- overwrote a key when the new name was taken and only then, and only under `Force`.
  pub rename_lem :
      (old new : String) (force : Bool) (s : Store) (r : Key lib × Bool)
      → new ≢ old
      → (rename lib old new force s).0 ≡ ok r
      → IsRenamed old new force s (rename lib old new force s) r
  unfolding IsRenamed
  rename_lem old new force s r ne =
      by_branch (λ p. p.0 ≡ ok r → IsRenamed old new force s p r) old new force s
        (λ r' t e is. absurd (e.fails ne (subst IsOk (sym is) tt)))
        (λ k pid over t e is.
          let (flag, put, stored, gone, key) = move_key_ok lib laws old new k pid over t r ne is in
          (
            (k, pid, e.found, stored, e.described, key),
            gone,
            (λ w. e.taken (sym flag ∙ w)),
            (λ w there. elim (Result-cases (ks_get s new)) [
              | inl (v, has) ↦ laws.put_taken t new k v (e.kept (sym flag ∙ w) ∙ has) put
              | inr (x, free) ↦ subst IsOk free there
            ]),
          ))
