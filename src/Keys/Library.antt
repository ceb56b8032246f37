-- ===== src/Keys/Library.antt =====
-- What key.go takes from other libraries: the keystore (boxo), the cryptography and the peer ids
-- (go-libp2p), the IPNS names and the paths (boxo). Byte strings are lists of numbers.
use bock_ipfs.Base.{ℕ, String, ◌≡◌, ◌≢◌, Bool, true, false, Option, none, List}
use bock_ipfs.Base.Results.{Result, ok, IsOk}
use bock_ipfs.Base.Int.{ℤ}

pub record KeyLib : Type 1 where
  pub Store : Type 0
  pub PrivKey : Type 0
  pub PubKey : Type 0
  pub PeerId : Type 0
  pub KeyPath : Type 0
  pub IpnsName : Type 0
  pub ks_get : Store → String → Result String PrivKey
  pub ks_put : Store → String → PrivKey → Store × Option String
  pub ks_has : Store → String → Result String Bool
  pub ks_delete : Store → String → Store × Option String
  pub ks_list : Store → Result String (List String)
  pub generate_rsa : ℤ → Result String (PrivKey × PubKey)
  pub generate_ed25519 : Result String (PrivKey × PubKey)
  pub get_public : PrivKey → PubKey
  pub id_from_public_key : PubKey → Result String PeerId
  pub id_from_private_key : PrivKey → Result String PeerId
  pub name_from_peer : PeerId → String
  pub new_path : String → Result String KeyPath
  pub name_from_string : String → Result String IpnsName
  pub extract_public_key : IpnsName → Result String PubKey
  pub sign_data : PrivKey → List ℕ → Result String (List ℕ)
  pub verify_data : PubKey → List ℕ → List ℕ → Result String Bool

module _ (lib : KeyLib) where
  open lib use {Store, PrivKey, ks_get, ks_put, ks_has, ks_delete}

  -- Documented behaviour of the keystore: `Put` refuses a name that is taken, each write touches its
  -- own name alone, and one that fails writes nothing.
  pub record KeystoreLaws : Type 0 where
    pub put_taken :
        (s : Store) (n : String) (k old : PrivKey) → ks_get s n ≡ ok old → (ks_put s n k).1 ≢ none
    pub put_stores :
        (s : Store) (n : String) (k : PrivKey)
        → (ks_put s n k).1 ≡ none
        → ks_get (ks_put s n k).0 n ≡ ok k
    pub put_other :
        (s : Store) (n m : String) (k : PrivKey) → n ≢ m → ks_get (ks_put s n k).0 m ≡ ks_get s m
    pub delete_removes :
        (s : Store) (n : String) → (ks_delete s n).1 ≡ none → ¬ IsOk (ks_get (ks_delete s n).0 n)
    pub delete_other : (s : Store) (n m : String) → n ≢ m → ks_get (ks_delete s n).0 m ≡ ks_get s m
    pub delete_failed : (s : Store) (n : String) → (ks_delete s n).1 ≢ none → (ks_delete s n).0 ≡ s
    pub has_true : (s : Store) (n : String) → ks_has s n ≡ ok true → IsOk (ks_get s n)
    pub has_false : (s : Store) (n : String) → ks_has s n ≡ ok false → ¬ IsOk (ks_get s n)

module _ (lib : KeyLib) where
  open lib use {
    PrivKey, get_public, id_from_public_key, id_from_private_key, sign_data, verify_data,
  }

  -- Documented behaviour of the cryptography: a key verifies what it signed, and the two ways to its
  -- peer id agree.
  pub record CryptoLaws : Type 0 where
    pub verifies :
        (sk : PrivKey) (m sig : List ℕ)
        → sign_data sk m ≡ ok sig
        → verify_data (get_public sk) m sig ≡ ok true
    pub same_id : (sk : PrivKey) → id_from_public_key (get_public sk) ≡ id_from_private_key sk
