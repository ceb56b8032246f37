-- ===== src/Gc/Mark/Coloring/Guarantee.antt =====
-- What `ColoredSet` guarantees of the set that it returns.
use bock_ipfs.Base.{
  Option-cases, In, In-append_left, In-append_right, In-append, ℕ, zero, suc, String, ◌≡◌, refl,
  sym, ap, ◌∙◌, subst, ◌⊎◌, inl, inr, Bool, true, false, Option, none, some, List, [], ◌∷◌, ◌++◌,
  append-nil, arith,
}
use bock_ipfs.Gc.Library.{Links, links, Library, Laws}
use bock_ipfs.Gc.Mark.{
  GcError, lib_error, Result, Received, Cut, uncut, cut_after, Context, to_cid_v1, Marking, Outcome,
  colored, failed, mark, after_mark, add_direct, after_direct, finish, Pins, root_stream, unmarked,
  colored_set,
}
use bock_ipfs.Gc.Mark.Descending.{
  pins_of, Below, top, IsLinks, SameLinks, IsClosed, IsTraced, HasAll, IsTraced-append,
  descendants_marks, descendants_complete, descendants-IsTraced, descendants-IsFetched,
  closed-Below,
}
use bock_ipfs.Gc.Mark.Coloring.{
  direct_of, IsSound, mark-IsSound, mark_failed-IsSound, after_mark-cases, add_direct_grows,
  add_direct_marks, add_direct_only,
}

module _ (lib : Library) (laws : Laws lib) (ng : lib.Cid → Links lib.Cid)
    (same : SameLinks lib laws ng) (pins : Pins lib) (sent : List lib.Cid) where
  open lib use {Cid, CidSet, has, new_set}

  -- the roots from which the first two walks go
  abbrev pub walked_roots : List Cid
  walked_roots = pins_of pins.recursive ++ sent

  abbrev pub all_roots : List Cid
  all_roots = (walked_roots ++ direct_of pins.direct) ++ pins_of pins.internal

  abbrev pub BelowAny : List Cid → Cid → Type 0
  BelowAny roots c = (root : Cid) × In root roots × Below ng root c

  -- what a directly pinned node links to hangs below the roots of the first two walks
  abbrev pub Supported : Type 0
  Supported =
      (c d : Cid) (ls : List Cid)
      → In c (direct_of pins.direct)
      → ng c ≡ links ls
      → In d ls
      → BelowAny walked_roots d

  abbrev pub AllFetched : Type 0
  AllFetched = (c : Cid) → BelowAny (pins_of pins.recursive) c → IsLinks (ng c)

  pub record Guarantee (s : CidSet) : Type 0 where
    pub below_walked : (c : Cid) → BelowAny walked_roots c → has s (to_cid_v1 lib c) ≡ true
    pub direct : HasAll lib laws ng s (direct_of pins.direct)
    pub below_internal :
        Supported → (c : Cid) → BelowAny (pins_of pins.internal) c → has s (to_cid_v1 lib c) ≡ true
    pub fetched : AllFetched
    pub traced : IsTraced lib laws ng all_roots s

  abbrev Sound : Type 0 → Type 0 → (Cid → Type 0) → List Cid → Marking lib → Type 0
  Sound = IsSound lib laws ng same

  empty-false : (c : Cid) → has new_set c ≡ true → ⊥
  empty-false c h = cc (h, laws.has-new_set c)

  module _ (out : List (Result Cid)) where
    abbrev first : Marking lib × Option String
    first = mark lib ng false (unmarked lib out) pins.recursive

    -- the first walk, over the recursive pins, has found all their links if it reported nothing
    first-Sound : first.1 ≡ none → Sound Unit AllFetched (λ c. ⊥) (pins_of pins.recursive) first.0
    unfolding mark
    first-Sound ok =
        let empty_closed : IsClosed lib laws ng new_set =
          λ c d ls h. absurd (empty-false (to_cid_v1 lib c) h) in
        let closed = descendants_complete lib laws ng new_set pins.recursive same ok empty_closed in
        let marked = descendants_marks lib laws ng new_set pins.recursive ok in
        record {
          closed = λ h e. closed;
          marked = λ e. marked;
          kept = λ e c k. absurd k;
          known = λ e c b.
              descendants-IsFetched lib laws ng new_set pins.recursive same ok (ground (arith, e))
                (λ a h. absurd (empty-false (to_cid_v1 lib a) h)) c
                (closed-Below lib laws ng _ b.0 c closed (marked b.0 b.1) b.2);
          traced =
              descendants-IsTraced lib laws ng new_set pins.recursive []
                (λ k h. absurd (empty-false k h));
        }

    first_failed-Sound :
        (sent : List (Result Cid))
        → Sound Unit AllFetched
            (λ c. ⊥)
            (pins_of pins.recursive)
            (record first.0 { errors = true; output = sent })
    unfolding mark
    first_failed-Sound sent = record {
      closed = λ h e. cc;
      marked = λ e. cc;
      kept = λ e c k. absurd k;
      known = λ e. cc;
      traced =
          descendants-IsTraced lib laws ng new_set pins.recursive []
            (λ k h. absurd (empty-false k h));
    }

  direct_closed :
      (m : Marking lib)
      → Sound Unit AllFetched (λ c. ⊥) walked_roots m
      → Supported
      → m.errors ≡ false
      → (c d : Cid) (ls : List Cid)
      → (has m.gcs (to_cid_v1 lib c) ≡ true)
        ⊎ ((a : Cid) × In a (direct_of pins.direct) × (to_cid_v1 lib a ≡ to_cid_v1 lib c))
      → ((a : Cid)
          → BelowAny walked_roots a
          → has (add_direct lib m.gcs pins.direct).0 (to_cid_v1 lib a) ≡ true)
      → ng c ≡ links ls
      → In d ls
      → has (add_direct lib m.gcs pins.direct).0 (to_cid_v1 lib d) ≡ true
  direct_closed m sound supported e c d ls (inl old) below ec i =
      add_direct_grows lib laws ng same m.gcs pins.direct (to_cid_v1 lib d)
        (sound.closed tt e c d ls old ec i)
  direct_closed m sound supported e c d ls (inr (a, direct, eq)) below ec i =
      below d (supported a d ls direct (same a c eq ∙ ec) i)

  -- After the direct pins the set need not be closed, but what was below the roots stays marked.
  direct-Sound :
      (m : Marking lib)
      → Sound Unit AllFetched (λ c. ⊥) walked_roots m
      → (add_direct lib m.gcs pins.direct).1 ≡ none
      → Sound Supported AllFetched
          (BelowAny walked_roots)
          (walked_roots ++ direct_of pins.direct)
          (record m { gcs = (add_direct lib m.gcs pins.direct).0 })
  direct-Sound m sound ok =
      let grows = add_direct_grows lib laws ng same m.gcs pins.direct in
      let below = λ (e : m.errors ≡ false) (c : Cid) (b : BelowAny walked_roots c).
        grows (to_cid_v1 lib c)
          (closed-Below lib laws ng m.gcs b.0 c (sound.closed tt e) (sound.marked e b.0 b.1) b.2) in
      record {
        closed = λ supported e c d ls h.
            direct_closed m sound supported e c d ls
              (add_direct_only lib laws ng same m.gcs pins.direct (to_cid_v1 lib c) h) (below e);
        marked = λ e c h. elim (In-append c walked_roots (direct_of pins.direct) h) [
          | inl old ↦ grows (to_cid_v1 lib c) (sound.marked e c old)
          | inr new ↦ add_direct_marks lib laws ng same m.gcs pins.direct ok c new
        ];
        kept = below;
        known = sound.known;
        traced = λ k h. elim (add_direct_only lib laws ng same m.gcs pins.direct k h) [
          | inl old ↦
              IsTraced-append lib laws ng walked_roots (direct_of pins.direct) m.gcs sound.traced k
                old
          | inr (c, i, e) ↦ (c, c, In-append_right c walked_roots (direct_of pins.direct) i, top, e)
        ];
      }

  abbrev Promise : List (Result Cid) × Outcome lib → Type 0
  Promise r = (s : CidSet) → r.1 ≡ colored s → Guarantee s

  no-Promise : (out : List (Result Cid)) (e : GcError Cid) → Promise (out, failed e)
  no-Promise out e s h = cc

  finish-Promise :
      (m : Marking lib)
      → Sound Supported AllFetched (BelowAny walked_roots) all_roots m
      → Promise (finish lib m)
  unfolding finish
  finish-Promise m sound s h =
      let ok : m.errors ≡ false = ground (arith, h) in
      let e : m.gcs ≡ s = ground (arith, h) in
      subst Guarantee e (record {
        below_walked = sound.kept ok;
        direct = λ c i. sound.marked ok c (
            In-append_left c (walked_roots ++ direct_of pins.direct) _
              (In-append_right c walked_roots (direct_of pins.direct) i));
        below_internal = λ supported c b.
            closed-Below lib laws ng m.gcs b.0 c (sound.closed supported ok)
              (sound.marked ok b.0
                (In-append_right b.0 (walked_roots ++ direct_of pins.direct) _ b.1))
              b.2;
        fetched = sound.known ok;
        traced = sound.traced;
      })

  module _ (sends : ℕ → Bool) (ctx_err : String) where
    abbrev step4 : Marking lib → List (Result Cid) × Outcome lib
    step4 m3 = after_mark lib sends ctx_err (mark lib ng false m3 pins.internal) (finish lib)

    step4-Promise :
        (m : Marking lib)
        → Sound Supported AllFetched
            (BelowAny walked_roots)
            (walked_roots ++ direct_of pins.direct)
            m
        → Promise (step4 m)
    step4-Promise m sound =
        after_mark-cases lib laws ng same sends ctx_err Promise (finish lib)
          (mark lib ng false m pins.internal) no-Promise
          (λ ok. finish-Promise _ (
            mark-IsSound lib laws ng same Supported AllFetched (BelowAny walked_roots) false m _
              pins.internal sound ok))
          (λ out. finish-Promise _ (
            mark_failed-IsSound lib laws ng same Supported AllFetched (BelowAny walked_roots) false
              m _ pins.internal out sound))

    abbrev step3 : Marking lib → List (Result Cid) × Outcome lib
    step3 m2 = after_direct lib m2 (add_direct lib m2.gcs pins.direct) step4

    after_direct_ok :
        (m : Marking lib)
        → (add_direct lib m.gcs pins.direct).1 ≡ none
        → step3 m ≡ step4 (record m { gcs = (add_direct lib m.gcs pins.direct).0 })
    unfolding after_direct
    after_direct_ok m ok = rw (ok, after_direct)

    after_direct_bad :
        (m : Marking lib) (e : String)
        → (add_direct lib m.gcs pins.direct).1 ≡ some e
        → step3 m ≡ (m.output, failed (lib_error e))
    unfolding after_direct
    after_direct_bad m e bad = rw (bad, after_direct)

    step3-Promise :
        (m : Marking lib) → Sound Unit AllFetched (λ c. ⊥) walked_roots m → Promise (step3 m)
    step3-Promise m sound = elim (Option-cases (add_direct lib m.gcs pins.direct).1) [
      | inl ok ↦
          subst Promise (sym (after_direct_ok m ok)) (step4-Promise _ (direct-Sound m sound ok))
      | inr (e, bad) ↦ λ s h. cc (rw (after_direct_bad m e bad) at h)
    ]

    module _ (stream : List (Received Cid)) (all_sent : pins_of stream ≡ sent) where
      abbrev step2 : Marking lib → List (Result Cid) × Outcome lib
      step2 m1 = after_mark lib sends ctx_err (mark lib ng true m1 stream) step3

      abbrev Walked : Marking lib → Type 0
      Walked = Sound Unit AllFetched (λ c. ⊥) walked_roots

      step2-Promise :
          (m : Marking lib)
          → Sound Unit AllFetched (λ c. ⊥) (pins_of pins.recursive) m
          → Promise (step2 m)
      step2-Promise m sound =
          let lift : (n : Marking lib)
              → Sound Unit AllFetched (λ c. ⊥) (pins_of pins.recursive ++ pins_of stream) n
              → Walked n =
            λ n h.
              subst (λ r. Sound Unit AllFetched (λ c. ⊥) (pins_of pins.recursive ++ r) n) all_sent
                h in
          after_mark-cases lib laws ng same sends ctx_err Promise step3 (mark lib ng true m stream)
            no-Promise
            (λ ok. step3-Promise _ (
              lift _
                (mark-IsSound lib laws ng same Unit AllFetched (λ c. ⊥) true m _ stream sound ok)))
            (λ out. step3-Promise _ (
              lift _ (
                mark_failed-IsSound lib laws ng same Unit AllFetched (λ c. ⊥) true m _ stream out
                  sound)))

      steps-Promise :
          (out : List (Result Cid)) → Promise (after_mark lib sends ctx_err (first out) step2)
      steps-Promise out =
          after_mark-cases lib laws ng same sends ctx_err Promise step2 (first out) no-Promise
            (λ ok. step2-Promise _ (first-Sound out ok))
            (λ failed_out. step2-Promise _ (first_failed-Sound out failed_out))

-- the roots that are sent before the context ends
pub sent_before : {Cid : Type 0} → Cut → List Cid → List Cid
sent_before uncut cs = cs
sent_before (cut_after n noticed) [] = []
sent_before (cut_after zero noticed) (c ∷ cs) = []
sent_before (cut_after (suc n) noticed) (c ∷ cs) = c ∷ sent_before (cut_after n noticed) cs

sent_before-prefix :
    {Cid : Type 0} (cut : Cut) (cs : List Cid)
    → (rest : List Cid) × (sent_before cut cs ++ rest ≡ cs)
unfolding sent_before
sent_before-prefix uncut cs = ([], append-nil cs)
sent_before-prefix (cut_after n noticed) [] = ([], refl)
sent_before-prefix (cut_after zero noticed) (c ∷ cs) = (c ∷ cs, refl)
sent_before-prefix (cut_after (suc n) noticed) (c ∷ cs) =
    let (rest, e) = sent_before-prefix (cut_after n noticed) cs in (rest, ap (λ l. c ∷ l) e)

pins_of-root_stream :
    (lib : Library) (e : String) (cut : Cut) (cs : List lib.Cid)
    → pins_of (root_stream lib e cut cs) ≡ sent_before cut cs
unfolding sent_before root_stream
pins_of-root_stream lib e uncut [] = refl
pins_of-root_stream lib e uncut (c ∷ cs) = ap (λ l. c ∷ l) (pins_of-root_stream lib e uncut cs)
pins_of-root_stream lib e (cut_after n true) [] = refl
pins_of-root_stream lib e (cut_after n false) [] = refl
pins_of-root_stream lib e (cut_after zero true) (c ∷ cs) = refl
pins_of-root_stream lib e (cut_after zero false) (c ∷ cs) = refl
pins_of-root_stream lib e (cut_after (suc n) noticed) (c ∷ cs) =
    ap (λ l. c ∷ l) (pins_of-root_stream lib e (cut_after n noticed) cs)

module _ (lib : Library) (laws : Laws lib) (ng : lib.Cid → Links lib.Cid)
    (same : SameLinks lib laws ng) (pins : Pins lib) (roots : List lib.Cid) (sends : ℕ → Bool)
    (ctx : Context) where
  -- `ColoredSet` may return a set although the context ended while the best-effort roots were being
  -- sent. The set that it returns holds the keys of all nodes below the recursive pins and those
  -- best-effort roots that were sent, which are the first of them, and all of them unless the
  -- context ended then; those of the direct pins; and, where the nodes that a direct pin links to are
  -- below such a pin or root, of all nodes below the internal pins. It holds no key of a node that is
  -- below no pin and no such root, and the links of every node below a recursive pin were found.
  pub colored_set-Guarantee :
      (out : List (Result lib.Cid)) (s : lib.CidSet)
      → (colored_set lib ng sends ctx pins roots out).1 ≡ colored s
      → (sent : List lib.Cid) × ((rest : List lib.Cid) × (sent ++ rest ≡ roots))
        × (ctx.cut ≡ uncut → sent ≡ roots)
        × Guarantee lib laws ng same pins sent s
  unfolding colored_set sent_before
  colored_set-Guarantee out s h = (
    sent_before ctx.cut roots,
    sent_before-prefix ctx.cut roots,
    (λ e. ap (λ c. sent_before c roots) e),
    steps-Promise lib laws ng same pins (sent_before ctx.cut roots) sends ctx.err
        (root_stream lib ctx.err ctx.cut roots) (pins_of-root_stream lib ctx.err ctx.cut roots) out
        s h,
  )
