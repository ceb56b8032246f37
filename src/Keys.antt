-- ===== src/Keys.antt =====
-- kubo-master/core/coreapi/key.go: the key API, over the keystore, the cryptography and the IPNS
-- names of other libraries.
pub mod Library
pub mod Storing
pub mod Moving
pub mod Renaming
pub mod Removing
pub mod Signing
mod Tests
use bock_ipfs.Base.{
  str_eq, str_le, if◌then◌else◌, nat_eq, string_eq, codes, ◌+++◌, ℕ, String, Bool, true, false,
  ◌||◌, Option, none, some, List, [], ◌∷◌, ◌++◌,
}
use bock_ipfs.Base.Results.{Result, ok, err}
use bock_ipfs.Base.Int.{ℤ, pos, negsuc, int_beq}
use bock_ipfs.Keys.Library.{KeyLib}

-- The errors that the file makes, and those that it passes on, by their texts.
pub data KeyError : Type 0 where
  cannot_create_self cannot_rename_self cannot_overwrite_self cannot_remove_self : KeyError
  already_exists not_found unrecognized_type unknown_name : String → KeyError
  identity_not_loaded : KeyError
  lib_error : String → KeyError

-- `KeyGenerateSettings` with its two options of core/coreiface/options/key.go.
pub record GenerateSettings : Type 0 where
  pub algorithm : String
  pub size : ℤ

pub data GenerateOption : Type 0 where
  key_type : String → GenerateOption
  key_size : ℤ → GenerateOption

apply_option : GenerateSettings → GenerateOption → GenerateSettings
apply_option s (key_type algorithm) = record s { algorithm = algorithm }
apply_option s (key_size size) = record s { size = size }

apply_options : GenerateSettings → List GenerateOption → GenerateSettings
unfolding apply_option
apply_options s [] = s
apply_options s (o ∷ opts) = apply_options (apply_option s o) opts

-- `KeyGenerateOptions`; no option returns an error.
pub key_generate_options : List GenerateOption → GenerateSettings
unfolding apply_options
key_generate_options = apply_options (record { algorithm = "rsa"; size = negsuc 0 })

abbrev pub default_rsa_len : ℤ
default_rsa_len = pos 2048

-- `sort.Strings`
insert_sorted : String → List String → List String
insert_sorted x [] = x ∷ []
insert_sorted x (y ∷ ys) = if str_le x y then x ∷ y ∷ ys else y ∷ insert_sorted x ys

pub sort_strings : List String → List String
unfolding insert_sorted
sort_strings [] = []
sort_strings (x ∷ xs) = insert_sorted x (sort_strings xs)

-- a result of a library, with its error passed on
abbrev pub passed : {A : Type 0} → Result String A → Result KeyError A
passed (ok a) = ok a
passed (err e) = err (lib_error e)

-- `signedMessagePrefix`
abbrev pub signed_message_prefix : List ℕ
signed_message_prefix = codes "libp2p-key signed message:"

-- is the name that of the node's own key?
pub names_self : String → Bool
names_self name = str_eq name "" || str_eq name "self"

module _ (lib : KeyLib) where
  open lib use {
    Store, PrivKey, PubKey, PeerId, KeyPath, ks_get, ks_put, ks_has, ks_delete, ks_list,
    generate_rsa, generate_ed25519, get_public, id_from_public_key, id_from_private_key, new_path,
    name_from_peer, name_from_string, extract_public_key, sign_data, verify_data,
  }

  -- `type key`
  pub record Key : Type 0 where
    pub name : String
    pub peer_id : PeerId
    pub path : KeyPath

  -- `newKey`
  pub new_key : String → PeerId → Result KeyError Key
  new_key name pid = elim (new_path ("/ipns/" +++ name_from_peer pid)) [
    | err e ↦ err (lib_error e)
    | ok p ↦ ok (record { name = name; peer_id = pid; path = p })
  ]

  -- `pid, err := peer.IDFromPublicKey(pk)` and `return newKey(name, pid)`
  pub key_of : String → PubKey → Result KeyError Key
  unfolding new_key
  key_of name pk = elim (id_from_public_key pk) [
    | err e ↦ err (lib_error e)
    | ok pid ↦ new_key name pid
  ]

  -- the switch over `options.Algorithm`
  pub new_pair : GenerateSettings → Result KeyError (PrivKey × PubKey)
  new_pair o =
      if str_eq o.algorithm "rsa"
      then passed (generate_rsa (if int_beq o.size (negsuc 0) then default_rsa_len else o.size))
      else if str_eq o.algorithm "ed25519"
      then passed generate_ed25519
      else err (unrecognized_type o.algorithm)

  -- the end of `Generate`: the pair is stored, then described
  store_pair : String → Store → Result KeyError (PrivKey × PubKey) → Result KeyError Key × Store
  unfolding key_of
  store_pair name s (err e) = (err e, s)
  store_pair name s (ok (sk, pk)) =
      let (s', e) = ks_put s name sk in
      elim e [ some x ↦ (err (lib_error x), s') | none ↦ (key_of name pk, s') ]

  -- `Generate`
  pub generate : String → List GenerateOption → Store → Result KeyError Key × Store
  unfolding key_generate_options new_pair store_pair
  generate name opts s =
      if str_eq name "self" then (err cannot_create_self, s) else elim (ks_get s name) [
        | ok sk ↦ (err (already_exists name), s)
        | err e ↦ store_pair name s (new_pair (key_generate_options opts))
      ]

  -- `List`: the loop over the sorted names
  list_keys : Store → List String → Result KeyError (List Key)
  unfolding key_of
  list_keys s [] = ok []
  list_keys s (k ∷ keys) =
      let rest = list_keys s keys in
      elim (ks_get s k) [
        | err e ↦ err (lib_error e)
        | ok priv ↦ elim (key_of k (get_public priv)) [
          | err e ↦ err e
          | ok key ↦ elim rest [ err e ↦ err e | ok keys' ↦ ok (key ∷ keys') ]
        ]
      ]

  -- `List`, with the identity of the node
  pub list : PeerId → Store → Result KeyError (List Key)
  unfolding list_keys new_key sort_strings
  list identity s = elim (ks_list s) [
    | err e ↦ err (lib_error e)
    | ok names ↦ elim (new_key "self" identity) [
      | err e ↦ err e
      | ok self ↦ elim (list_keys s (sort_strings names)) [
        | err e ↦ err e
        | ok keys ↦ ok (self ∷ keys)
      ]
    ]
  ]

  -- The end of `Rename`: `Put` of the new name, `Delete` of the old one, and the result.
  pub move_key :
      String → String → PrivKey → PeerId → Bool → Store → Result KeyError (Key × Bool) × Store
  unfolding new_key
  move_key old_name new_name old_key pid overwrite s =
      let (s', e) = ks_put s new_name old_key in
      elim e [
        | some x ↦ (err (lib_error x), s')
        | none ↦
            let (s'', e') = ks_delete s' old_name in
            elim e' [
              | some x ↦ (err (lib_error x), s'')
              | none ↦
                  (elim (new_key new_name pid) [ err x ↦ err x | ok k ↦ ok (k, overwrite) ], s'')
            ]
      ]

  -- The branch of `Rename` with `options.Force`: a key of the new name is deleted first.
  pub clear_target : String → Store → Result KeyError Bool × Store
  clear_target new_name s = elim (ks_has s new_name) [
    | err e ↦ (err (lib_error e), s)
    | ok false ↦ (ok false, s)
    | ok true ↦
        let (s', e) = ks_delete s new_name in
        elim e [ some x ↦ (err (lib_error x), s') | none ↦ (ok true, s') ]
  ]

  pub forced_move :
      String
      → String
      → PrivKey
      → PeerId
      → Result KeyError Bool × Store
      → Result KeyError (Key × Bool) × Store
  unfolding move_key
  forced_move old_name new_name old_key pid (err e, s) = (err e, s)
  forced_move old_name new_name old_key pid (ok overwrite, s) =
      move_key old_name new_name old_key pid overwrite s

  pub rename_found : String → String → Bool → PrivKey → Store → Result KeyError (Key × Bool) × Store
  unfolding new_key clear_target forced_move
  rename_found old_name new_name force old_key s = elim (id_from_public_key (get_public old_key)) [
    | err e ↦ (err (lib_error e), s)
    | ok pid ↦
        if str_eq new_name old_name
        then (elim (new_key old_name pid) [ err x ↦ err x | ok k ↦ ok (k, false) ], s)
        else forced_move old_name new_name old_key pid
            (if force then clear_target new_name s else (ok false, s))
  ]

  -- `Rename`: the key, and whether another key was overwritten
  pub rename : String → String → Bool → Store → Result KeyError (Key × Bool) × Store
  unfolding rename_found
  rename old_name new_name force s =
      if str_eq old_name "self"
      then (err cannot_rename_self, s)
      else if str_eq new_name "self"
      then (err cannot_overwrite_self, s)
      else elim (ks_get s old_name) [
        | err e ↦ (err (not_found old_name), s)
        | ok old_key ↦ rename_found old_name new_name force old_key s
      ]

  pub remove_found : String → PrivKey → Store → Result KeyError Key × Store
  unfolding new_key
  remove_found name removed s = elim (id_from_public_key (get_public removed)) [
    | err e ↦ (err (lib_error e), s)
    | ok pid ↦
        let (s', e) = ks_delete s name in
        elim e [ some x ↦ (err (lib_error x), s') | none ↦ (new_key "" pid, s') ]
  ]

  -- `Remove`
  pub remove : String → Store → Result KeyError Key × Store
  unfolding remove_found
  remove name s = if str_eq name "self" then (err cannot_remove_self, s) else elim (ks_get s name) [
    | err e ↦ (err (not_found name), s)
    | ok removed ↦ remove_found name removed s
  ]

  -- `Self`, with none for the empty peer id
  pub self_key : Option PeerId → Result KeyError Key
  unfolding new_key
  self_key none = err identity_not_loaded
  self_key (some identity) = new_key "self" identity

  pub sign_with : String → PrivKey → List ℕ → Result KeyError (Key × List ℕ)
  unfolding new_key
  sign_with name sk message = elim (id_from_private_key sk) [
    | err e ↦ err (lib_error e)
    | ok pid ↦ elim (new_key name pid) [
      | err e ↦ err e
      | ok key ↦ elim (sign_data sk (signed_message_prefix ++ message)) [
        | err e ↦ err (lib_error e)
        | ok sig ↦ ok (key, sig)
      ]
    ]
  ]

  -- `Sign`, with the private key of the node
  pub sign : PrivKey → Store → String → List ℕ → Result KeyError (Key × List ℕ)
  unfolding names_self sign_with
  sign private_key s name message =
      if names_self name
      then sign_with "self" private_key message
      else elim (ks_get s name) [ err e ↦ err (lib_error e) | ok sk ↦ sign_with name sk message ]

  pub verify_with : String → PubKey → List ℕ → List ℕ → Result KeyError (Key × Bool)
  unfolding key_of
  verify_with name pk signature message = elim (key_of name pk) [
    | err e ↦ err e
    | ok key ↦ elim (verify_data pk (signed_message_prefix ++ message) signature) [
      | err e ↦ err (lib_error e)
      | ok valid ↦ ok (key, valid)
    ]
  ]

  -- `Verify`
  pub verify : PrivKey → Store → String → List ℕ → List ℕ → Result KeyError (Key × Bool)
  unfolding names_self verify_with
  verify private_key s key_or_name signature message =
      if names_self key_or_name
      then verify_with "self" (get_public private_key) signature message
      else elim (ks_get s key_or_name) [
        | ok sk ↦ verify_with key_or_name (get_public sk) signature message
        | err e ↦ elim (name_from_string key_or_name) [
          | err x ↦ err (unknown_name key_or_name)
          | ok ipns_name ↦ elim (extract_public_key ipns_name) [
            | err x ↦ err (lib_error x)
            | ok pk ↦ verify_with "" pk signature message
          ]
        ]
      ]
