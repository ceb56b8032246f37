-- ===== src/Keys/Storing.antt =====
-- What the operations of the key API do to the keystore.
use bock_ipfs.Base.{
  str_eq, Bool-cases, Option-cases, nat_eq, string_eq, String, ◌≡◌, refl, ap, ◌∙◌, subst, ◌≢◌, inl,
  inr, List, arith, eq_iff,
}
use bock_ipfs.Base.Results.{Result, ok, err, IsOk, Result-cases}
use bock_ipfs.Keys.Library.{KeyLib, KeystoreLaws}
use bock_ipfs.Keys.{
  KeyError, GenerateOption, key_generate_options, Key, key_of, new_pair, store_pair, generate,
}

module _ (lib : KeyLib) (laws : KeystoreLaws lib) where
  open lib use {
    Store, PrivKey, PubKey, PeerId, ks_get, ks_put, ks_has, ks_delete, get_public,
    id_from_public_key,
  }

  store_pair_other :
      (name m : String) (s : Store) (pair : Result KeyError (PrivKey × PubKey))
      → name ≢ m
      → ks_get (store_pair lib name s pair).1 m ≡ ks_get s m
  unfolding store_pair
  store_pair_other name m s (err e) ne = refl
  store_pair_other name m s (ok (sk, pk)) ne = elim (Option-cases (ks_put s name sk).1) [
    | inl fine ↦ ground (arith, fine, laws.put_other s name m sk ne)
    | inr (x, bad) ↦ ground (arith, bad, laws.put_other s name m sk ne)
  ]

  -- `Generate` never changes or removes a stored key, whether it succeeds or fails.
  pub generate_keeps :
      (name m : String) (opts : List GenerateOption) (s : Store) (k : PrivKey)
      → ks_get s m ≡ ok k
      → ks_get (generate lib name opts s).1 m ≡ ok k
  unfolding generate
  generate_keeps name m opts s k h = elim (Bool-cases (str_eq name "self")) [
    | inl self ↦ rw self h
    | inr other ↦ elim (Result-cases (ks_get s name)) [
      | inl (sk, taken) ↦ ground (arith, other, taken, h)
      | inr (e, free) ↦
          let ne : name ≢ m = λ same. absurd (cc (h, free, ap (ks_get s) same)) in
          rw (other, free, generate) (store_pair_other name m s _ ne ∙ h)
    ]
  ]

  store_pair_ok :
      (name : String) (s : Store) (pair : Result KeyError (PrivKey × PubKey)) (key : Key lib)
      → (store_pair lib name s pair).0 ≡ ok key
      → (sk : PrivKey) × (pk : PubKey) × (pair ≡ ok (sk, pk))
        × (ks_get (store_pair lib name s pair).1 name ≡ ok sk)
        × (key_of lib name pk ≡ ok key)
  unfolding store_pair
  store_pair_ok name s (err e) key h = cc
  store_pair_ok name s (ok (sk, pk)) key h = elim (Option-cases (ks_put s name sk).1) [
    | inl fine ↦ (
      sk,
      pk,
      refl,
      ground (arith, fine, laws.put_stores s name sk fine),
      ground (arith, h, fine),
    )
    | inr (x, bad) ↦ absurd (ground (arith, h, bad))
  ]

  -- A `Generate` that succeeds has a name other than "self" that was free, and has stored under it
  -- the private half of a new pair, whose public half gives the key that is returned.
  pub generate_lem :
      (name : String) (opts : List GenerateOption) (s : Store) (key : Key lib)
      → (generate lib name opts s).0 ≡ ok key
      → (name ≢ "self")
        × ¬ IsOk (ks_get s name)
        × ((sk : PrivKey) × (pk : PubKey) × (new_pair lib (key_generate_options opts) ≡ ok (sk, pk))
            × (ks_get (generate lib name opts s).1 name ≡ ok sk)
            × (key_of lib name pk ≡ ok key))
  unfolding generate
  generate_lem name opts s key h = elim (Bool-cases (str_eq name "self")) [
    | inl self ↦ absurd (ground (arith, self, h))
    | inr other ↦ elim (Result-cases (ks_get s name)) [
      | inl (sk, taken) ↦ absurd (ground (arith, other, taken, h))
      | inr (e, free) ↦ (
        (λ same. absurd (cc (other, (eq_iff name "self").1 same))),
        (λ there. subst IsOk free there),
        rw (other, free, generate) (store_pair_ok name s _ key (rw (other, free, generate) at h)),
      )
    ]
  ]
