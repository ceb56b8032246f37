-- ===== src/Repo/Migrations/Fetchers.antt =====
-- kubo-master/repo/fsrepo/migrations: the fetchers that try again (retryfetcher.go) and try one
-- another (fetcher.go), and `GetMigrationFetcher` of migrations.go, which puts them together.
mod Trying
mod Offering
mod Choosing
mod Tests
use bock_ipfs.Base.Results.{Result, ok, err}
use bock_ipfs.Base.Int.{ℤ, pos, negsuc}
use bock_ipfs.Base.{
  str_eq, if◌then◌else◌, string_eq, contains, ℕ, zero, suc, String, Option, none, some, List, [],
  ◌∷◌,
}

-- An error of a library; that of `RetryFetcher` without a try, and around the last error; and the two
-- of a `multierr.Append`.
pub data FetchError : Type 0 where
  failure : String → FetchError
  never_tried : FetchError
  exhausted : FetchError → FetchError
  several : FetchError → FetchError → FetchError

-- `type Fetcher`, in a world that its calls change
pub record Fetcher (World : Type 0) : Type 0 where
  pub fetch : World → String → World × Result FetchError (List ℕ)
  pub close : World → World × Option FetchError

-- `multierr.Append`
unfoldable pub append_error : Option FetchError → FetchError → FetchError
append_error none e = e
append_error (some es) e = several es e

-- `fmt.Errorf` with the last error, which is nil if there was no try
unfoldable pub exceeded : Option FetchError → FetchError
exceeded none = never_tried
exceeded (some e) = exhausted e

-- how often a loop up to a bound runs
abbrev pub times : ℤ → ℕ
times (pos n) = n
times (negsuc n) = 0

module _ {World : Type 0} where
  -- the loop of `RetryFetcher.Fetch`, with the error of the context in each world
  unfoldable pub retry_loop :
      Fetcher World
      → (World → Option FetchError)
      → ℕ
      → Option FetchError
      → World
      → String
      → World × Result FetchError (List ℕ)
  unfolding exceeded
  retry_loop f ctx_err zero last w path = (w, err (exceeded last))
  retry_loop f ctx_err (suc n) last w path =
      let (w', r) = f.fetch w path in
      elim r [
        | ok out ↦ (w', ok out)
        | err e ↦ elim (ctx_err w') [
          | some x ↦ (w', err x)
          | none ↦ retry_loop f ctx_err n (some e) w' path
        ]
      ]

  -- `RetryFetcher`
  unfoldable pub retry_fetcher : Fetcher World → (World → Option FetchError) → ℤ → Fetcher World
  unfolding retry_loop
  retry_fetcher f ctx_err max_tries = record {
    fetch = λ w path. retry_loop f ctx_err (times max_tries) none w path;
    close = λ w. f.close w;
  }

  -- the loop of `MultiFetcher.Fetch`
  unfoldable pub multi_loop :
      List (Fetcher World) → Option FetchError → World → String → World × Result FetchError (List ℕ)
  unfolding append_error
  multi_loop [] none w path = (w, ok [])
  multi_loop [] (some es) w path = (w, err es)
  multi_loop (f ∷ fs) errs w path =
      let (w', r) = f.fetch w path in
      elim r [ ok out ↦ (w', ok out) | err e ↦ multi_loop fs (some (append_error errs e)) w' path ]

  -- the loop of `MultiFetcher.Close`
  unfoldable pub multi_close :
      List (Fetcher World) → Option FetchError → World → World × Option FetchError
  unfolding append_error
  multi_close [] errs w = (w, errs)
  multi_close (f ∷ fs) errs w =
      let (w', e) = f.close w in
      elim e [
        | none ↦ multi_close fs errs w'
        | some x ↦ multi_close fs (some (append_error errs x)) w'
      ]

  -- `MultiFetcher`
  unfoldable pub multi_fetcher : List (Fetcher World) → Fetcher World
  unfolding multi_loop multi_close
  multi_fetcher fs = record {
    fetch = λ w path. multi_loop fs none w path;
    close = λ w. multi_close fs none w;
  }

pub data SourceError : Type 0 where
  bad_gateway : String → SourceError
  bad_scheme : SourceError
  no_sources : SourceError

-- what `url.Parse` makes of a text: the scheme, and a handle of the rest
pub record Url : Type 0 where
  pub scheme : String
  pub rest : String

-- What `GetMigrationFetcher` uses: the trimming of texts, `url.Parse` and `URL.String`, the HTTP fetcher of a gateway and that of IPFS, if there is one, and the context's error.
pub record Sources (World : Type 0) : Type 0 where
  pub trim : String → String
  pub parse_url : String → Result String Url
  pub url_text : Url → String
  pub new_http : String → Fetcher World
  pub new_ipfs : Option (Fetcher World)
  pub ctx_err : World → Option FetchError

module _ {World : Type 0} (s : Sources World) where
  unfoldable pub http_fetcher : String → Fetcher World
  unfolding retry_fetcher
  http_fetcher gateway = retry_fetcher (s.new_http gateway) s.ctx_err (pos 3)

  -- the cases of one source, for its fetcher, if it has one
  unfoldable pub source_fetcher : String → Result SourceError (Option (Fetcher World))
  unfolding http_fetcher
  source_fetcher src =
      if contains ("HTTPS" ∷ "https" ∷ "HTTP" ∷ "http" ∷ []) src
      then ok (some (http_fetcher ""))
      else if contains ("IPFS" ∷ "ipfs" ∷ []) src
      then ok s.new_ipfs
      else if str_eq src ""
      then ok none
      else elim (s.parse_url src) [
        | err e ↦ err (bad_gateway e)
        | ok u ↦
            if str_eq u.scheme ""
            then ok (some (http_fetcher (s.url_text (record u { scheme = "https" }))))
            else if contains ("https" ∷ "http" ∷ []) u.scheme
            then ok (some (http_fetcher (s.url_text u)))
            else err bad_scheme
      ]

  -- the loop over the sources
  unfoldable pub source_fetchers : List String → Result SourceError (List (Fetcher World))
  unfolding source_fetcher
  source_fetchers [] = ok []
  source_fetchers (src ∷ srcs) = elim (source_fetcher (s.trim src)) [
    | err e ↦ err e
    | ok found ↦ elim (source_fetchers srcs) [
      | err e ↦ err e
      | ok fs ↦ elim found [ none ↦ ok fs | some f ↦ ok (f ∷ fs) ]
    ]
  ]

  -- `GetMigrationFetcher`
  unfoldable pub get_migration_fetcher : List String → Result SourceError (Fetcher World)
  unfolding source_fetchers multi_fetcher
  get_migration_fetcher srcs = elim (source_fetchers srcs) [
    | err e ↦ err e
    | ok [] ↦ err no_sources
    | ok (f ∷ []) ↦ ok f
    | ok (f ∷ g ∷ fs) ↦ ok (multi_fetcher (f ∷ g ∷ fs))
  ]
