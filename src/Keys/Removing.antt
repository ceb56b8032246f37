-- ===== src/Keys/Removing.antt =====
-- What `Remove` of key.go does to the keystore.
use bock_ipfs.Base.{
  str_eq, Bool-cases, Option-cases, nat_eq, string_eq, String, ◌≡◌, refl, subst, ◌≢◌, inl, inr,
  arith, eq_iff,
}
use bock_ipfs.Base.Results.{ok, IsOk, Result-cases}
use bock_ipfs.Keys.Library.{KeyLib, KeystoreLaws}
use bock_ipfs.Keys.{Key, remove_found, remove}

module _ (lib : KeyLib) (laws : KeystoreLaws lib) where
  open lib use {
    Store, PrivKey, PubKey, PeerId, ks_get, ks_put, ks_has, ks_delete, get_public,
    id_from_public_key,
  }

  remove_found_lem :
      (name : String) (k : PrivKey) (s : Store) (key : Key lib)
      → (remove_found lib name k s).0 ≡ ok key
      → ¬ IsOk (ks_get (remove_found lib name k s).1 name)
  unfolding remove_found
  remove_found_lem name k s key h = elim (Result-cases (id_from_public_key (get_public k))) [
    | inr (e, bad) ↦ absurd (ground (arith, h, bad))
    | inl (pid, fine) ↦ elim (Option-cases (ks_delete s name).1) [
      | inr (x, e) ↦ absurd (ground (arith, h, fine, e))
      | inl e ↦ λ there.
          laws.delete_removes s name e
            (subst (λ t. IsOk (ks_get t name)) (ground (arith, fine, e)) there)
    ]
  ]

  remove_found_other :
      (name m : String) (k : PrivKey) (s : Store)
      → name ≢ m
      → ks_get (remove_found lib name k s).1 m ≡ ks_get s m
  unfolding remove_found
  remove_found_other name m k s ne = elim (Result-cases (id_from_public_key (get_public k))) [
    | inr (e, bad) ↦ ground (arith, bad)
    | inl (pid, fine) ↦ elim (Option-cases (ks_delete s name).1) [
      | inr (x, e) ↦ ground (arith, fine, e, laws.delete_other s name m ne)
      | inl e ↦ ground (arith, fine, e, laws.delete_other s name m ne)
    ]
  ]

  -- `Remove` leaves the key of every other name as it was, whether it succeeds or fails, and when it
  -- succeeds the name was that of a stored key, is not "self", and has no key afterwards.
  pub remove_lem :
      (name : String) (s : Store)
      → ((m : String) → name ≢ m → ks_get (remove lib name s).1 m ≡ ks_get s m)
        × ((key : Key lib)
            → (remove lib name s).0 ≡ ok key
            → (name ≢ "self") × IsOk (ks_get s name) × ¬ IsOk (ks_get (remove lib name s).1 name))
  unfolding remove
  remove_lem name s = elim (Bool-cases (str_eq name "self")) [
    | inl self ↦ rw (self, remove) ((λ m ne. refl), (λ key is. absurd (cc is)))
    | inr other ↦ elim (Result-cases (ks_get s name)) [
      | inr (e, gone) ↦ rw (other, gone, remove) ((λ m ne. refl), (λ key is. absurd (cc is)))
      | inl (k, found) ↦
          rw (other, found, remove)
            (
              (λ m ne. remove_found_other name m k s ne),
              (λ key is. (
                (λ same. absurd (cc (other, (eq_iff name "self").1 same))),
                tt,
                remove_found_lem name k s key is,
              )),
            )
    ]
  ]
