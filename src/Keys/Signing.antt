-- ===== src/Keys/Signing.antt =====
-- `Sign` and `Verify` of key.go: what one signs the other accepts.
use bock_ipfs.Base.{
  Bool-cases, nat_eq, string_eq, ℕ, String, ◌≡◌, inl, inr, true, List, ◌++◌, arith,
}
use bock_ipfs.Base.Results.{ok, Result-cases}
use bock_ipfs.Keys.Library.{KeyLib, CryptoLaws}
use bock_ipfs.Keys.{
  signed_message_prefix, names_self, Key, new_key, key_of, sign_with, sign, verify_with, verify,
}

module _ (lib : KeyLib) (laws : CryptoLaws lib) where
  open lib use {
    Store, PrivKey, PubKey, PeerId, ks_get, get_public, id_from_public_key, id_from_private_key,
    sign_data, verify_data,
  }

  sign_with_verifies :
      (name : String) (sk : PrivKey) (message sig : List ℕ) (key : Key lib)
      → sign_with lib name sk message ≡ ok (key, sig)
      → verify_with lib name (get_public sk) sig message ≡ ok (key, true)
  unfolding sign_with verify_with key_of
  sign_with_verifies name sk message sig key h = elim (Result-cases (id_from_private_key sk)) [
    | inr (e, bad) ↦ absurd (ground (arith, h, bad))
    | inl (pid, fine) ↦ elim (Result-cases (new_key lib name pid)) [
      | inr (e, bad) ↦ absurd (ground (arith, h, fine, bad))
      | inl (key', named) ↦ elim (Result-cases (sign_data sk (signed_message_prefix ++ message))) [
        | inr (e, bad) ↦ absurd (ground (arith, h, fine, named, bad))
        | inl (sig', signed) ↦ ground (
          arith,
          h,
          fine,
          named,
          signed,
          laws.same_id sk,
          laws.verifies sk (signed_message_prefix ++ message) sig' signed,
        )
      ]
    ]
  ]

  -- Every signature that `Sign` makes is accepted by `Verify` under the same name, in the same state
  -- and for the same bytes, with the same description of the key.
  pub verify-sign :
      (node : PrivKey) (s : Store) (name : String) (message sig : List ℕ) (key : Key lib)
      → sign lib node s name message ≡ ok (key, sig)
      → verify lib node s name sig message ≡ ok (key, true)
  unfolding sign verify
  verify-sign node s name message sig key h = elim (Bool-cases (names_self name)) [
    | inl self ↦
        rw (self, verify) (sign_with_verifies "self" node message sig key (rw (self, sign) at h))
    | inr other ↦ elim (Result-cases (ks_get s name)) [
      | inr (e, gone) ↦ absurd (ground (arith, h, other, gone))
      | inl (sk, found) ↦
          rw (other, found, verify)
            (sign_with_verifies name sk message sig key (rw (other, found, sign) at h))
    ]
  ]
