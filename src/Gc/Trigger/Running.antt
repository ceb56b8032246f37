-- ===== src/Gc/Trigger/Running.antt =====
-- What the runs of corerepo/gc.go do and report.
use bock_ipfs.Gc.Mark.{Result, key_removed, error}
use bock_ipfs.Base.{
  if◌then◌else◌, nat_eq, string_eq, String, ◌≡◌, refl, ap, ◌∙◌, Bool, true, false, Option, none,
  some, List, [], ◌∷◌, ◌++◌, append-nil, append_assoc,
}
use bock_ipfs.Base.Results as Results
use bock_ipfs.Gc.Library.{Library}
use bock_ipfs.Gc.Trigger.{
  Failure, gc_failure, ctx_failure, RunError, single, multi_error, other_error, split_last,
  summarize, collect_loop, collect_result,
}

-- the keys and the errors among results, in order
pub removed_keys : {Cid : Type 0} → List (Result Cid) → List Cid
removed_keys [] = []
removed_keys (key_removed k ∷ rs) = k ∷ removed_keys rs
removed_keys (error e ∷ rs) = removed_keys rs

pub failures : {Cid : Type 0} → List (Result Cid) → List (Failure Cid)
failures [] = []
failures (key_removed k ∷ rs) = failures rs
failures (error e ∷ rs) = gc_failure e ∷ failures rs

-- the error of the context, where it has ended
pub end_failures : {Cid : Type 0} → Option String → List (Failure Cid)
end_failures none = []
end_failures (some e) = ctx_failure e ∷ []

-- the failures that an error of `CollectResult` has
pub members : {Cid : Type 0} → Option (RunError Cid) → List (Failure Cid)
members none = []
members (some (single e)) = e ∷ []
members (some (multi_error es e)) = es ++ e ∷ []
members (some (other_error e)) = []

collect_loop_lem :
    {Cid : Type 0} (cb : Bool) (es : List (Failure Cid)) (ks : List Cid) (rs : List (Result Cid))
    (end : Option String)
    → collect_loop cb es ks rs end
      ≡ (es ++ (failures rs ++ end_failures end), if cb then ks ++ removed_keys rs else ks)
unfolding collect_loop failures removed_keys end_failures
collect_loop_lem true es ks [] none = simp (append-nil)
collect_loop_lem true es ks [] (some e) = simp (append-nil)
collect_loop_lem true es ks (error e ∷ rs) end =
    simp (collect_loop_lem true (es ++ gc_failure e ∷ []) ks rs end, append_assoc)
collect_loop_lem true es ks (key_removed k ∷ rs) end =
    simp (collect_loop_lem true es (ks ++ k ∷ []) rs end, append_assoc)
collect_loop_lem false es ks [] none = simp (append-nil)
collect_loop_lem false es ks [] (some e) = refl
collect_loop_lem false es ks (error e ∷ rs) end =
    simp (collect_loop_lem false (es ++ gc_failure e ∷ []) ks rs end, append_assoc)
collect_loop_lem false es ks (key_removed k ∷ rs) end = simp (collect_loop_lem false es ks rs end)

split_last_lem :
    {Cid : Type 0} (e : Failure Cid) (es : List (Failure Cid))
    → (split_last e es).0 ++ (split_last e es).1 ∷ [] ≡ e ∷ es
unfolding split_last
split_last_lem e [] = refl
split_last_lem e (f ∷ es) = ap (λ l. e ∷ l) (split_last_lem f es)

members-summarize : {Cid : Type 0} (es : List (Failure Cid)) → members (summarize es) ≡ es
unfolding summarize members
members-summarize [] = refl
members-summarize (e ∷ []) = refl
members-summarize (e ∷ f ∷ es) = split_last_lem e (f ∷ es)

-- `CollectResult` calls the callback for exactly the removed keys, in their order, and returns an
-- error that has exactly the errors among the results, in their order, and then that of the context.
pub collect_result_lem :
    {Cid : Type 0} (rs : List (Result Cid)) (end : Option String)
    → ((collect_result true rs end).1 ≡ removed_keys rs)
      × ((cb : Bool) → members (collect_result cb rs end).0 ≡ failures rs ++ end_failures end)
unfolding collect_result
collect_result_lem rs end = (
  ap (λ p. p.1) (collect_loop_lem true [] [] rs end),
  λ cb. members-summarize _ ∙ ap (λ p. p.0) (collect_loop_lem cb [] [] rs end),
)
