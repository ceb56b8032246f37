-- ===== src/Keys/Tests.antt =====
-- Runs of the key API over a keystore in memory.
use bock_ipfs.Base.{
  ◌==◌, str_eq, if◌then◌else◌, Option-cases, nat_eq, string_eq, codes, ℕ, String, ◌≡◌, refl, subst,
  ◌≢◌, ◌⊎◌, inl, inr, Bool, true, false, ◌&&◌, Option, none, some, List, [], ◌∷◌, ◌++◌, arith,
  eq_iff,
}
use bock_ipfs.Base.Results.{Result, ok, err, IsOk}
use bock_ipfs.Base.Dict.{
  Dict, lookup, insert, delete, has_key, lookup-insert, lookup-delete, lookup-insert_self,
  lookup-delete_self,
}
use bock_ipfs.Keys.{
  key_type, key_generate_options, signed_message_prefix, Key, key_of, new_pair, store_pair,
  generate, rename, remove, sign, verify,
}
use bock_ipfs.Keys.Storing.{generate_lem}
use bock_ipfs.Keys.Renaming.{rename_keeps, IsRenamed, rename_lem}
use bock_ipfs.Keys.Removing.{remove_lem}
use bock_ipfs.Keys.Signing.{verify-sign}
use bock_ipfs.Keys.Library.{KeyLib, KeystoreLaws, CryptoLaws}

-- A private key is a number, its public half and its peer id are the same number, and a signature of
-- a message is the key before the message.
get : Dict String ℕ → String → Result String ℕ
unfolding lookup
get s n = elim (lookup n s) [ some k ↦ ok k | none ↦ err "no key by the given name was found" ]

put : Dict String ℕ → String → ℕ → Dict String ℕ × Option String
unfolding has_key insert
put s n k =
    if has_key n s
    then (s, some "key by that name already exists, refusing to overwrite")
    else (insert n k s, none)

drop : Dict String ℕ → String → Dict String ℕ × Option String
unfolding has_key delete
drop s n =
    if has_key n s then (delete n s, none) else (s, some "no key by the given name was found")

names : Dict String ℕ → List String
names [] = []
names ((n, k) ∷ s) = n ∷ names s

bytes_eq : List ℕ → List ℕ → Bool
bytes_eq [] [] = true
bytes_eq (x ∷ xs) (y ∷ ys) = (x == y) && bytes_eq xs ys
bytes_eq _ _ = false

abbrev toy : KeyLib
toy = record {
  Store = Dict String ℕ;
  PrivKey = ℕ;
  PubKey = ℕ;
  PeerId = ℕ;
  KeyPath = String;
  IpnsName = ℕ;
  ks_get = get;
  ks_put = put;
  ks_has = λ s n. ok (has_key n s);
  ks_delete = drop;
  ks_list = λ s. ok (names s);
  generate_rsa = λ size. ok (7, 7);
  generate_ed25519 = ok (9, 9);
  get_public = λ k. k;
  id_from_public_key = λ k. ok k;
  id_from_private_key = λ k. ok k;
  name_from_peer = λ p. "k51";
  new_path = λ n. ok n;
  name_from_string = λ n. if str_eq n "k51nine" then ok 9 else err "invalid";
  extract_public_key = λ n. ok n;
  sign_data = λ k m. ok (k ∷ m);
  verify_data = λ k m sig. ok (bytes_eq (k ∷ m) sig);
}

bytes_eq_refl : (l : List ℕ) → bytes_eq l l ≡ true
unfolding bytes_eq
bytes_eq_refl [] = refl
bytes_eq_refl (x ∷ l) = ground (arith, bytes_eq_refl l)

toy_crypto : CryptoLaws toy
unfolding toy
toy_crypto = record {
  verifies = λ sk m sig h. ground (arith, h, bytes_eq_refl (sk ∷ m));
  same_id = λ sk. refl;
}

get_absent : (s : Dict String ℕ) (n : String) → lookup n s ≡ none → ¬ IsOk (get s n)
unfolding get
get_absent s n e there = rw (e, IsOk, get) at there

get_present : (s : Dict String ℕ) (n : String) (v : ℕ) → lookup n s ≡ some v → IsOk (get s n)
unfolding get
get_present s n v e = rw (e, get, IsOk) tt

toy_laws : KeystoreLaws toy
unfolding toy get put drop has_key lookup
toy_laws = record {
  put_taken = λ s n k old h bad. elim (Option-cases (lookup n s)) [
    | inl e ↦ absurd (ground (arith, e, h))
    | inr (v, e) ↦ absurd (ground (arith, e, bad))
  ];
  put_stores = λ s n k h. elim (Option-cases (lookup n s)) [
    | inl e ↦ ground (arith, e, lookup-insert_self n k s)
    | inr (v, e) ↦ absurd (ground (arith, e, h))
  ];
  put_other = λ s n m k ne. elim (Option-cases (lookup n s)) [
    | inl e ↦ ground (arith, e, lookup-insert n m k s, eq_iff n m, ne)
    | inr (v, e) ↦ ground (arith, e)
  ];
  delete_removes = λ s n h. elim (Option-cases (lookup n s)) [
    | inl e ↦ absurd (ground (arith, e, h))
    | inr (v, e) ↦
        subst (λ t. ¬ IsOk (get t n)) (ground (arith, e))
          (get_absent (delete n s) n (lookup-delete_self n s))
  ];
  delete_other = λ s n m ne. elim (Option-cases (lookup n s)) [
    | inl e ↦ ground (arith, e)
    | inr (v, e) ↦ ground (arith, e, lookup-delete n m s, eq_iff n m, ne)
  ];
  delete_failed = λ s n h. elim (Option-cases (lookup n s)) [
    | inl e ↦ ground (arith, e)
    | inr (v, e) ↦ absurd (h (ground (arith, e)))
  ];
  has_true = λ s n h. elim (Option-cases (lookup n s)) [
    | inl e ↦ absurd (ground (arith, e, h))
    | inr (v, e) ↦ get_present s n v e
  ];
  has_false = λ s n h. elim (Option-cases (lookup n s)) [
    | inl e ↦ get_absent s n e
    | inr (v, e) ↦ absurd (ground (arith, e, h))
  ];
}

two : Dict String ℕ
two = ("alice", 3) ∷ ("bob", 5) ∷ []

described : String → ℕ → Key toy
unfolding toy
described name pid = record { name = name; peer_id = pid; path = "/ipns/k51" }

generate_lem_example :
    (◌≢◌ {A = String} "carol" "self")
    × ¬ IsOk (toy.ks_get two "carol")
    × ((sk : ℕ) × (pk : ℕ) × (new_pair toy (key_generate_options (key_type "ed25519" ∷ []))
          ≡ ok (sk, pk))
        × (toy.ks_get (generate toy "carol" (key_type "ed25519" ∷ []) two).1 "carol" ≡ ok sk)
        × (key_of toy "carol" pk ≡ ok (described "carol" 9)))
unfolding toy two described generate store_pair get put
generate_lem_example =
    generate_lem toy toy_laws "carol" (key_type "ed25519" ∷ []) two (described "carol" 9) refl

rename_keeps_example :
    (toy.ks_get (rename toy "alice" "bob" true two).1 "alice" ≡ ok 3)
    ⊎ (toy.ks_get (rename toy "alice" "bob" true two).1 "bob" ≡ ok 3)
unfolding two get
rename_keeps_example = rename_keeps toy toy_laws "alice" "bob" true two 3 refl

rename_lem_example :
    IsRenamed toy toy_laws "alice" "bob" true two
      (rename toy "alice" "bob" true two)
      (described "bob" 3, true)
unfolding rename get two has_key drop put described
rename_lem_example =
    rename_lem toy toy_laws "alice" "bob" true two (described "bob" 3, true) (λ e. absurd (cc e))
      refl

remove_lem_example :
    ((m : String)
      → ◌≢◌ {A = String} "bob" m
      → toy.ks_get (remove toy "bob" two).1 m ≡ toy.ks_get two m)
    × ((key : Key toy)
        → (remove toy "bob" two).0 ≡ ok key
        → (◌≢◌ {A = String} "bob" "self")
          × IsOk (toy.ks_get two "bob")
          × ¬ IsOk (toy.ks_get (remove toy "bob" two).1 "bob"))
remove_lem_example = remove_lem toy toy_laws "bob" two

verify-sign_example :
    verify toy 1 two "bob" (5 ∷ signed_message_prefix ++ codes "hi") (codes "hi")
    ≡ ok (described "bob" 5, true)
unfolding sign get two described
verify-sign_example =
    verify-sign toy toy_crypto 1 two "bob" (codes "hi") (5 ∷ signed_message_prefix ++ codes "hi")
      (described "bob" 5) refl
