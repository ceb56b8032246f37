-- ===== src/P2p/Listener/Closing.antt =====
-- Which listeners `Register` and `Close` leave, and what `Close` returns.
use bock_ipfs.Base.{
  str_eq, if◌then◌else◌, Option-cases, nat_eq, string_eq, length, length-append, All, ◌+◌, String,
  ◌≡◌, refl, ap, ◌∙◌, inl, inr, Bool, false, not, ◌&&◌, ◌||◌, Option, none, some, List, [], ◌∷◌,
  ◌++◌, arith, eq_iff,
}
use bock_ipfs.Base.Dict.{
  Dict, lookup, insert, delete, has_key, lookup-insert, lookup-delete, IsUnique, insert-IsUnique,
  count,
}
use bock_ipfs.P2p.Listener.{
  Listener, key, already_registered, Listeners, register, accepts, dispatch, close_loop, close,
}

-- every listener stands under its own key
abbrev pub IsKeyed : Dict String Listener → Type 0
IsKeyed m = All (λ (entry : String × Listener). key entry.1 ≡ entry.0) m

pub record IsValid (r : Listeners) : Type 0 where
  pub unique : IsUnique r.listeners
  pub keyed : IsKeyed r.listeners

IsKeyed-insert :
    (l : Listener) (m : Dict String Listener) → IsKeyed m → IsKeyed (insert (key l) l m)
unfolding insert
IsKeyed-insert l [] h = (refl, tt)
IsKeyed-insert l ((j, w) ∷ m) h = ground (arith, IsKeyed-insert l m h.1)

IsKeyed-delete : (k : String) (m : Dict String Listener) → IsKeyed m → IsKeyed (delete k m)
unfolding delete
IsKeyed-delete k [] h = tt
IsKeyed-delete k ((j, w) ∷ m) h = ground (arith, IsKeyed-delete k m h.1)

-- A listener is registered exactly if its key is free: then a stream of that key goes to it, and
-- other keys keep their listeners; on a conflict nothing changes. Either way the registry is valid.
pub register_lem :
    (r : Listeners) (l : Listener) (k : String)
    → IsValid r
    → IsValid (register r l).0
      × (dispatch (register r l).0 k
          ≡ (if str_eq (key l) k && not (accepts r (key l)) then some l else dispatch r k))
      × ((register r l).1 ≡ (if accepts r (key l) then some already_registered else none))
unfolding register accepts dispatch has_key
register_lem r l k v = elim (Option-cases (lookup (key l) r.listeners)) [
  | inl free ↦ ground (
    arith,
    lookup-insert (key l) k l r.listeners,
    insert-IsUnique (key l) l r.listeners v.unique,
    IsKeyed-insert l r.listeners v.keyed,
  )
  | inr (old, taken) ↦ ground arith
]

module _ (match_func : Listener → Bool) where
  -- some entry matches and has the key `k`
  hit : Dict String Listener → String → Bool
  hit [] k = false
  hit ((j, l) ∷ m) k = (match_func l && str_eq (key l) k) || hit m k

  lookup-close_loop :
      (entries m : Dict String Listener) (todo : List Listener) (k : String)
      → lookup k (close_loop match_func entries m todo).0
        ≡ (if hit entries k then none else lookup k m)
  unfolding close_loop hit has_key
  lookup-close_loop [] m todo k = refl
  lookup-close_loop ((j, l) ∷ entries) m todo k = ground (
    arith,
    lookup-close_loop entries m todo k,
    lookup-close_loop entries (delete (key l) m) (todo ++ l ∷ []) k,
    lookup-delete (key l) k m,
    eq_iff (key l) k,
  )

  -- the test on what is stored, if anything is
  abbrev matches : Option Listener → Bool
  matches none = false
  matches (some l) = match_func l

  hit-lookup :
      (m : Dict String Listener) (k : String)
      → IsUnique m
      → IsKeyed m
      → hit m k ≡ matches (lookup k m)
  unfolding hit lookup
  hit-lookup [] k u h = refl
  hit-lookup ((j, l) ∷ m) k u h = ground (arith, hit-lookup m k u.1 h.1, eq_iff j k)

  abbrev Present : Dict String Listener → Dict String Listener → Type 0
  Present entries m = (k : String) (l : Listener) → lookup k entries ≡ some l → lookup k m ≡ some l

  Present-tail :
      (j : String) (l : Listener) (entries m : Dict String Listener)
      → IsUnique ((j, l) ∷ entries)
      → Present ((j, l) ∷ entries) m
      → Present entries m
  unfolding lookup
  Present-tail j l entries m u p k w h = ground (arith, p k w, eq_iff j k)

  Present-delete :
      (j : String) (entries m : Dict String Listener)
      → lookup j entries ≡ none
      → Present entries m
      → Present entries (delete j m)
  Present-delete j entries m free p k w h = ground (arith, p k w h, lookup-delete j k m, eq_iff j k)

  length-close_loop :
      (entries m : Dict String Listener) (todo : List Listener)
      → IsUnique entries
      → IsKeyed entries
      → Present entries m
      → length (close_loop match_func entries m todo).1 ≡ length todo + count match_func entries
  unfolding close_loop has_key lookup
  length-close_loop [] m todo u h p = omega arith
  length-close_loop ((j, l) ∷ entries) m todo u h p =
      let kept = Present-tail j l entries m u p in
      let there : lookup (key l) m ≡ some l = rw h.0 (p j l (ground (arith, eq_iff j j))) in
      let absent : lookup (key l) entries ≡ none = rw h.0 u.0 in
      ground (
        arith,
        there,
        length-close_loop entries (delete (key l) m) (todo ++ l ∷ []) u.1 h.1
            (Present-delete (key l) entries m absent kept),
        length-close_loop entries m todo u.1 h.1 kept,
        length-append todo (l ∷ []),
      )

-- `Close` takes out exactly the listeners that match, and returns how many these were.
pub close_lem :
    (match_func : Listener → Bool) (r : Listeners) (k : String)
    → IsValid r
    → (dispatch (close match_func r).0 k
        ≡ (if matches match_func (dispatch r k) then none else dispatch r k))
      × ((close match_func r).1 ≡ count match_func r.listeners)
unfolding close dispatch
close_lem match_func r k v = (
  lookup-close_loop match_func r.listeners r.listeners [] k
      ∙ ap (λ (b : Bool). if b then none else lookup k r.listeners)
          (hit-lookup match_func r.listeners k v.unique v.keyed),
  length-close_loop match_func r.listeners r.listeners [] v.unique v.keyed (λ j l h. h)
      ∙ omega arith,
)
