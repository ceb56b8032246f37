-- ===== src/Repo/Migrations/Fetchers/Trying.antt =====
-- kubo-master/repo/fsrepo/migrations/retryfetcher.go and fetcher.go: what is tried, in which order.
use bock_ipfs.Base.Results.{Result, ok, err, Result-cases}
use bock_ipfs.Base.Int.{ℤ}
use bock_ipfs.Base.{
  Option-cases, ℕ, zero, suc, ◌<◌, String, ◌≡◌, sym, ap, subst, inl, inr, Option, none, some, List,
  arith,
}
use bock_ipfs.Repo.Migrations.Fetchers.{
  FetchError, Fetcher, exceeded, times, retry_loop, retry_fetcher,
}

module _ {World : Type 0} where
  -- That many tries fail in a row, and the context is not done behind any of them.
  pub data FailedTries (f : Fetcher World) (ctx_err : World → Option FetchError) (path : String)
      : ℕ → World → Option FetchError → World → Option FetchError → Type 0 where
    untried : {w : World} {last : Option FetchError} → FailedTries f ctx_err path 0 w last w last
    tried :
        {n : ℕ} {w w1 w2 : World} {last last2 : Option FetchError} {e : FetchError}
        → f.fetch w path ≡ (w1, err e)
        → ctx_err w1 ≡ none
        → FailedTries f ctx_err path n w1 (some e) w2 last2
        → FailedTries f ctx_err path (suc n) w last w2 last2

  -- what up to `n` tries come to
  pub data IsRetried (f : Fetcher World) (ctx_err : World → Option FetchError) (path : String)
      (n : ℕ) (w : World) (last : Option FetchError)
      : World × Result FetchError (List ℕ) → Type 0 where
    succeeded :
        (k : ℕ) {w1 w2 : World} {last1 : Option FetchError} {out : List ℕ}
        → k < n
        → FailedTries f ctx_err path k w last w1 last1
        → f.fetch w1 path ≡ (w2, ok out)
        → IsRetried f ctx_err path n w last (w2, ok out)
    cancelled :
        (k : ℕ) {w1 w2 : World} {last1 : Option FetchError} {e x : FetchError}
        → k < n
        → FailedTries f ctx_err path k w last w1 last1
        → f.fetch w1 path ≡ (w2, err e)
        → ctx_err w2 ≡ some x
        → IsRetried f ctx_err path n w last (w2, err x)
    gave_up :
        {w1 : World} {last1 : Option FetchError}
        → FailedTries f ctx_err path n w last w1 last1
        → IsRetried f ctx_err path n w last (w1, err (exceeded last1))

  one_more :
      (f : Fetcher World) (ctx_err : World → Option FetchError) (path : String) (n : ℕ)
      (w w1 : World) (last : Option FetchError) (e : FetchError)
      (r : World × Result FetchError (List ℕ))
      → f.fetch w path ≡ (w1, err e)
      → ctx_err w1 ≡ none
      → IsRetried f ctx_err path n w1 (some e) r
      → IsRetried f ctx_err path (suc n) w last r
  one_more f ctx_err path n w w1 last e _ call go (succeeded k less before got) =
      succeeded (suc k) (omega arith) (tried call go before) got
  one_more f ctx_err path n w w1 last e _ call go (cancelled k less before got stop) =
      cancelled (suc k) (omega arith) (tried call go before) got stop
  one_more f ctx_err path n w w1 last e _ call go (gave_up before) = gave_up (tried call go before)

  retry_loop_lem :
      (f : Fetcher World) (ctx_err : World → Option FetchError) (path : String) (n : ℕ) (w : World)
      (last : Option FetchError)
      → IsRetried f ctx_err path n w last (retry_loop f ctx_err n last w path)
  unfolding retry_loop
  retry_loop_lem f ctx_err path zero w last = gave_up untried
  retry_loop_lem f ctx_err path (suc n) w last =
      let (w', r) = f.fetch w path in
      let Goal : World × Result FetchError (List ℕ) → Type 0 =
        IsRetried f ctx_err path (suc n) w last in
      elim (Result-cases r) [
        | inl (out, good) ↦
            let step : retry_loop f ctx_err (suc n) last w path ≡ (w', ok out) = ground arith in
            subst Goal (sym step) (succeeded 0 (omega arith) untried (ap (λ z. (w', z)) good))
        | inr (e, bad) ↦ elim (Option-cases (ctx_err w')) [
          | inr (x, stop) ↦
              let step : retry_loop f ctx_err (suc n) last w path ≡ (w', err x) = ground arith in
              subst Goal (sym step) (cancelled 0 (omega arith) untried (ap (λ z. (w', z)) bad) stop)
          | inl go ↦
              let step : retry_loop f ctx_err (suc n) last w path
                  ≡ retry_loop f ctx_err n (some e) w' path =
                ground arith in
              subst Goal (sym step) (
                one_more f ctx_err path n w w' last e _ (ap (λ z. (w', z)) bad) go
                  (retry_loop_lem f ctx_err path n w' (some e)))
        ]
      ]

  -- `RetryFetcher` tries at most `MaxTries` times: it gives what the first try that succeeds gives; or,
  -- where the context is done behind a try that failed, the error of the context; or, where all of the
  -- tries failed, an error that tells of the last one.
  pub retry_fetcher_lem :
      (f : Fetcher World) (ctx_err : World → Option FetchError) (max_tries : ℤ) (w : World)
      (path : String)
      → IsRetried f ctx_err path
          (times max_tries)
          w
          none
          ((retry_fetcher f ctx_err max_tries).fetch w path)
  unfolding retry_fetcher
  retry_fetcher_lem f ctx_err max_tries w path =
      retry_loop_lem f ctx_err path (times max_tries) w none
