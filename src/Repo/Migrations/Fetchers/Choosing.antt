-- ===== src/Repo/Migrations/Fetchers/Choosing.antt =====
-- kubo-master/repo/fsrepo/migrations/fetcher.go and migrations.go: which fetcher gives the file.
use bock_ipfs.Base.Results.{Result, ok, err, Result-cases}
use bock_ipfs.Base.{
  string_eq, ℕ, String, ◌≡◌, refl, sym, ap, ◌∙◌, subst, inl, inr, none, some, List, [], ◌∷◌, ◌++◌,
  append-nil, append_assoc, arith,
}
use bock_ipfs.Repo.Migrations.Fetchers.{
  FetchError, failure, never_tried, exhausted, several, Fetcher, append_error, multi_loop,
  multi_fetcher, Sources, source_fetchers, get_migration_fetcher,
}
use bock_ipfs.Repo.Migrations.Fetchers.Offering.{AllOffer, source_fetchers-AllOffer}

-- the errors in one error
unfoldable pub errors_of : FetchError → List FetchError
errors_of (several a b) = errors_of a ++ errors_of b
errors_of (failure t) = failure t ∷ []
errors_of never_tried = never_tried ∷ []
errors_of (exhausted e) = exhausted e ∷ []

-- the errors in a list of them
unfoldable pub all_errors : List FetchError → List FetchError
all_errors [] = []
all_errors (e ∷ es) = errors_of e ++ all_errors es

module _ {World : Type 0} where
  -- Each of these fetchers fails, one after another, with these errors.
  pub data AllFail (path : String)
      : List (Fetcher World) → World → List FetchError → World → Type 0 where
    nobody : {w : World} → AllFail path [] w [] w
    one_more :
        {f : Fetcher World} {fs : List (Fetcher World)} {w w1 w2 : World} {e : FetchError}
        {es : List FetchError}
        → f.fetch w path ≡ (w1, err e)
        → AllFail path fs w1 es w2
        → AllFail path (f ∷ fs) w (e ∷ es) w2

  -- What the fetchers come to, tried in order, when others have failed with the errors of `earlier`.
  pub data IsFirst (path : String) (fs : List (Fetcher World)) (w : World)
      (earlier : List FetchError) : World × Result FetchError (List ℕ) → Type 0 where
    by_one :
        (before : List (Fetcher World)) (f : Fetcher World) (behind : List (Fetcher World))
        {w1 w2 : World} {es : List FetchError} {out : List ℕ}
        → fs ≡ before ++ f ∷ behind
        → AllFail path before w es w1
        → f.fetch w1 path ≡ (w2, ok out)
        → IsFirst path fs w earlier (w2, ok out)
    by_none :
        {w1 : World} {es : List FetchError} {all : FetchError}
        → AllFail path fs w es w1
        → errors_of all ≡ earlier ++ all_errors es
        → IsFirst path fs w earlier (w1, err all)

  further_one :
      (path : String) (f : Fetcher World) (fs : List (Fetcher World)) (w w1 : World)
      (earlier : List FetchError) (e : FetchError) (r : World × Result FetchError (List ℕ))
      → f.fetch w path ≡ (w1, err e)
      → IsFirst path fs w1 (earlier ++ errors_of e) r
      → IsFirst path (f ∷ fs) w earlier r
  unfolding all_errors
  further_one path f fs w w1 earlier e _ call (by_one before g behind split fail got) =
      by_one (f ∷ before) g behind (ap (λ gs. f ∷ gs) split) (one_more call fail) got
  further_one path f fs w w1 earlier e _ call (by_none {es = es} fail all) =
      by_none (one_more call fail) (all ∙ append_assoc earlier (errors_of e) (all_errors es))

  loop_further :
      (path : String) (fs : List (Fetcher World)) (w : World) (es : FetchError)
      → IsFirst path fs w (errors_of es) (multi_loop fs (some es) w path)
  unfolding multi_loop append_error errors_of all_errors
  loop_further path [] w es = by_none nobody (sym (append-nil (errors_of es)))
  loop_further path (f ∷ fs) w es =
      let (w', r) = f.fetch w path in
      let Goal : World × Result FetchError (List ℕ) → Type 0 =
        IsFirst path (f ∷ fs) w (errors_of es) in
      elim (Result-cases r) [
        | inl (out, good) ↦
            let step : multi_loop (f ∷ fs) (some es) w path ≡ (w', ok out) = ground arith in
            subst Goal (sym step) (by_one [] f fs refl nobody (ap (λ z. (w', z)) good))
        | inr (e, bad) ↦
            let step : multi_loop (f ∷ fs) (some es) w path
                ≡ multi_loop fs (some (several es e)) w' path =
              ground arith in
            subst Goal (sym step) (
              further_one path f fs w w' (errors_of es) e _ (ap (λ z. (w', z)) bad)
                (loop_further path fs w' (several es e)))
      ]

  multi_fetcher_lem :
      (f : Fetcher World) (fs : List (Fetcher World)) (w : World) (path : String)
      → IsFirst path (f ∷ fs) w [] ((multi_fetcher (f ∷ fs)).fetch w path)
  unfolding multi_fetcher multi_loop append_error
  multi_fetcher_lem f fs w path =
      let (w', r) = f.fetch w path in
      let Goal : World × Result FetchError (List ℕ) → Type 0 = IsFirst path (f ∷ fs) w [] in
      elim (Result-cases r) [
        | inl (out, good) ↦
            let step : multi_loop (f ∷ fs) none w path ≡ (w', ok out) = ground arith in
            subst Goal (sym step) (by_one [] f fs refl nobody (ap (λ z. (w', z)) good))
        | inr (e, bad) ↦
            let step : multi_loop (f ∷ fs) none w path ≡ multi_loop fs (some e) w' path =
              ground arith in
            subst Goal (sym step) (
              further_one path f fs w w' [] e _ (ap (λ z. (w', z)) bad) (loop_further path fs w' e))
      ]

  -- a fetcher alone is as good as a `MultiFetcher` of it
  alone :
      (path : String) (f : Fetcher World) (w w1 : World) (r : Result FetchError (List ℕ))
      → f.fetch w path ≡ (w1, r)
      → IsFirst path (f ∷ []) w [] (w1, r)
  unfolding all_errors
  alone path f w w1 (ok out) call = by_one [] f [] refl nobody call
  alone path f w w1 (err e) call = by_none (one_more call nobody) (sym (append-nil (errors_of e)))

  chosen :
      (s : Sources World) (srcs : List String) (m : Fetcher World) (fs : List (Fetcher World))
      → source_fetchers s srcs ≡ ok fs
      → get_migration_fetcher s srcs ≡ ok m
      → (path : String) (w : World) → IsFirst path fs w [] (m.fetch w path)
  unfolding get_migration_fetcher
  chosen s srcs m [] e h path w = ground (arith, e, h)
  chosen s srcs m (f ∷ []) e h path w =
      let same : f ≡ m = ground (arith, e, h) in
      subst (λ (g : Fetcher World). IsFirst path (f ∷ []) w [] (g.fetch w path)) same
        (alone path f w _ _ refl)
  chosen s srcs m (f ∷ g ∷ fs) e h path w =
      let same : multi_fetcher (f ∷ g ∷ fs) ≡ m = ground (arith, e, h) in
      subst (λ (k : Fetcher World). IsFirst path (f ∷ g ∷ fs) w [] (k.fetch w path)) same
        (multi_fetcher_lem f (g ∷ fs) w path)

  -- The fetcher that `GetMigrationFetcher` makes tries those of the sources in their order: it gives
  -- the file of the first that succeeds, when all before it failed, and fails only if every one of
  -- them failed, with all their errors in order.
  -- A source that names HTTP is the default gateway and one that is a URL its gateway, with the
  -- scheme https if it has none, each tried three times; one that names IPFS is the fetcher for it,
  -- if there is one; and an empty one is left out.
  pub get_migration_fetcher_lem :
      (s : Sources World) (srcs : List String) (m : Fetcher World)
      → get_migration_fetcher s srcs ≡ ok m
      → (fs : List (Fetcher World)) × AllOffer s srcs fs
        × ((path : String) (w : World) → IsFirst path fs w [] (m.fetch w path))
  unfolding get_migration_fetcher
  get_migration_fetcher_lem s srcs m h = elim (Result-cases (source_fetchers s srcs)) [
    | inl (fs, e) ↦ (fs, source_fetchers-AllOffer s srcs fs e, chosen s srcs m fs e h)
    | inr (x, bad) ↦ ground (arith, h, bad)
  ]
