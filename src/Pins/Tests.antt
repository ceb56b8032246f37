-- ===== src/Pins/Tests.antt =====
-- Runs of the pin API, and instances of the theorems.
use bock_ipfs.Base.Results.{Result, ok, err, ok_injective}
use bock_ipfs.Base.Dict.{lookup, insert}
use bock_ipfs.Base.{
  ◌==◌, if◌then◌else◌, Bool-cases, nat_eq, All, In, is_empty, ℕ, ◌<◌, String, ◌≡◌, refl, sym, ◌∙◌,
  subst, inl, inr, true, false, some, List, [], ◌∷◌, arith,
}
use bock_ipfs.Pins.Verify.{
  PinStatus, status, stream_error, add_child, check_links, remember, check_pin, verify_loop, verify,
}
use bock_ipfs.Pins.Reference.{Descends, Reaches}
use bock_ipfs.Pins.Checking.{expected, verify_lem, check_pin_verdict}

-- 1 links to 2 and 3, both link to 4, whose links are missing; every other node has no links
abbrev links : ℕ → Result String (List ℕ)
links n =
    if n == 1
    then ok (2 ∷ 3 ∷ [])
    else if n == 2
    then ok (4 ∷ [])
    else if n == 3
    then ok (4 ∷ [])
    else if n == 4
    then err "block not found"
    else ok []

abbrev height : ℕ → ℕ
height n = if n == 1 then 2 else if n == 2 then 1 else if n == 3 then 1 else 0

descends_to :
    (n : ℕ) (ks ls : List ℕ)
    → links n ≡ ok ks
    → All (λ d. height d < height n) ks
    → links n ≡ ok ls
    → All (λ d. height d < height n) ls
descends_to n ks ls e h e' = subst (All (λ d. height d < height n)) (ok_injective (sym e ∙ e')) h

links-Descends : Descends links height
links-Descends n ls h = elim (Bool-cases (n == 1)) [
  | inl one ↦ descends_to n (2 ∷ 3 ∷ []) ls (ground arith) (ground arith) h
  | inr not_one ↦ elim (Bool-cases (n == 2)) [
    | inl two ↦ descends_to n (4 ∷ []) ls (ground arith) (ground arith) h
    | inr not_two ↦ elim (Bool-cases (n == 3)) [
      | inl three ↦ descends_to n (4 ∷ []) ls (ground arith) (ground arith) h
      | inr not_three ↦ elim (Bool-cases (n == 4)) [
        | inl four ↦ absurd (ground arith)
        | inr fetched ↦ descends_to n [] ls (ground arith) tt h
      ]
    ]
  ]
]

-- the bad node is listed for each way to it
diamond :
    verify links 5 (ok 1 ∷ err "closed" ∷ ok 2 ∷ []) (true ∷ true ∷ false ∷ [])
    ≡ status (record {
      cid = 1;
      is_ok = false;
      bad_nodes =
          record { cid = 4; error = "block not found" }
          ∷ record { cid = 4; error = "block not found" }
          ∷ [];
    })
      ∷ stream_error "closed"
      ∷ []
unfolding verify verify_loop check_pin lookup remember check_links insert add_child
diamond = refl

verify_lem_example :
    verify links 5 (ok 1 ∷ ok 2 ∷ []) (true ∷ true ∷ [])
    ≡ expected links height links-Descends (ok 1 ∷ ok 2 ∷ []) (true ∷ true ∷ [])
verify_lem_example =
    verify_lem links height links-Descends 5 (ok 1 ∷ ok 2 ∷ []) (true ∷ true ∷ []) (omega arith)

check_pin_verdict_example :
    (st : PinStatus ℕ) × ((check_pin links 5 [] 1).1 ≡ some st)
    × (st.is_ok ≡ is_empty st.bad_nodes)
    × ((d : ℕ) (x : String)
        → In (record { cid = d; error = x }) st.bad_nodes
        → Reaches links d 1 × (links d ≡ err x))
    × ((d : ℕ) (x : String)
        → Reaches links d 1
        → links d ≡ err x
        → In (record { cid = d; error = x }) st.bad_nodes)
unfolding lookup
check_pin_verdict_example =
    check_pin_verdict links height links-Descends 5 [] 1 (omega arith) (λ c st h. cc)
