-- ===== src/Repo/Common/Keys.antt =====
-- kubo-master/repo/common/common.go: the keys of configurations, `strings.Split` and
-- `strings.Join` at the dots.
use Prim.Native.Char.{Char, code}
use bock_ipfs.Base.{◌==◌, if◌then◌else◌, ◌+++◌, String, ◌≢◌, List, [], ◌∷◌, arith}

-- the first part before a dot, put in front of the rest
abbrev grow : Char → List String → List String
grow c [] = String.◌∷◌ c String.[] ∷ []
grow c (p ∷ ps) = String.◌∷◌ c p ∷ ps

-- `strings.Split(key, ".")`: always at least one part
unfoldable pub split : String → List String
split String.[] = String.[] ∷ []
split (String.◌∷◌ c s) =
    let rest = split s in if code c == b'.' then String.[] ∷ rest else grow c rest

-- `strings.Join(parts, ".")`
unfoldable pub join : List String → String
join [] = ""
join (p ∷ []) = p
join (p ∷ q ∷ ps) = p +++ "." +++ join (q ∷ ps)

pub split-ne-nil : (s : String) → split s ≢ []
unfolding split
split-ne-nil String.[] = λ e. cc
split-ne-nil (String.◌∷◌ c s) = λ e. ground (arith, split-ne-nil s)
