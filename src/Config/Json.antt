-- ===== src/Config/Json.antt =====
-- The JSON values that config/types.go reads and writes, for the part of `encoding/json` that it
-- uses. A value stands for its text: the package has checked the syntax before it calls an
-- `UnmarshalJSON`, so the text "undefined", for which the source has cases, never comes.
use bock_ipfs.Base.{if◌then◌else◌, String, ◌≡◌, refl, Bool, List, [], ◌∷◌}
use bock_ipfs.Base.Results.{Result, ok, err}
use bock_ipfs.Base.Int.{ℤ, pos, in_int64}

-- `integer` is a number that is written without a fraction and an exponent.
mutual
  pub data Json : Type 0 where
    null : Json
    boolean : Bool → Json
    integer : ℤ → Json
    number : String → Json
    text : String → Json
    array : Elements → Json
    object : Json

  pub data Elements : Type 0 where
    nil : Elements
    cons : Json → Elements → Elements

pub data JsonError : Type 0 where
  wrong_type out_of_range : JsonError
  invalid_flag invalid_priority : ℤ → JsonError
  not_a_flag : Json → JsonError
  true_priority : JsonError
  not_positive : ℤ → JsonError

-- `json.Unmarshal` into an `int64`, which leaves the variable at zero for null
unfoldable pub read_int64 : Json → Result JsonError ℤ
read_int64 null = ok (pos 0)
read_int64 (integer z) = if in_int64 z then ok z else err out_of_range
read_int64 _ = err wrong_type

-- `json.Unmarshal` into a `string`
unfoldable pub read_string : Json → Result JsonError String
read_string null = ok ""
read_string (text s) = ok s
read_string _ = err wrong_type

-- `json.Unmarshal` of an array into a `[]string`
unfoldable pub read_strings : Elements → Result JsonError (List String)
unfolding read_string
read_strings nil = ok []
read_strings (cons j js) =
    let rest = read_strings js in
    elim (read_string j) [
      | err e ↦ err e
      | ok s ↦ elim rest [ err e ↦ err e | ok ss ↦ ok (s ∷ ss) ]
    ]

-- `json.Marshal` of a `[]string`
unfoldable pub write_strings : List String → Elements
write_strings [] = nil
write_strings (s ∷ ss) = cons (text s) (write_strings ss)

pub read-write_strings : (ss : List String) → read_strings (write_strings ss) ≡ ok ss
unfolding read_strings write_strings
read-write_strings [] = refl
read-write_strings (s ∷ ss) = rw (read-write_strings ss) refl
