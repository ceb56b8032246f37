-- ===== src/Repo/Migrations/Fetchers/Tests.antt =====
-- Runs of the fetchers, and instances of the theorems.
use bock_ipfs.Base.Results.{ok, err}
use bock_ipfs.Base.Int.{pos}
use bock_ipfs.Base.{
  ltb, str_eq, if◌then◌else◌, string_eq, ℕ, ◌+◌, String, ◌≡◌, refl, Option, none, some, List, [],
  ◌∷◌,
}
use bock_ipfs.Repo.Migrations.Fetchers.{
  FetchError, failure, exhausted, several, Fetcher, append_error, exceeded, retry_loop,
  retry_fetcher, multi_loop, multi_close, multi_fetcher, bad_scheme, Sources, http_fetcher,
  source_fetcher, source_fetchers, get_migration_fetcher,
}
use bock_ipfs.Repo.Migrations.Fetchers.Trying.{IsRetried, retry_fetcher_lem}
use bock_ipfs.Repo.Migrations.Fetchers.Offering.{AllOffer}
use bock_ipfs.Repo.Migrations.Fetchers.Choosing.{IsFirst, get_migration_fetcher_lem}

-- The world counts the calls; this fetcher fails until so many have been made.
abbrev failing_until : ℕ → Fetcher ℕ
failing_until n = record {
  fetch = λ w path. if ltb w n then (w + 1, err (failure "timeout")) else (w + 1, ok (w ∷ []));
  close = λ w. (w, some (failure "stuck"));
}

-- the context is done when ten calls have been made
abbrev ten_calls : ℕ → Option FetchError
ten_calls w = if ltb w 10 then none else some (failure "context canceled")

abbrev sources : Sources ℕ
sources = record {
  trim = λ t. t;
  parse_url = λ t.
      if str_eq t "http://gateway"
      then ok (record { scheme = "http"; rest = "gateway" })
      else if str_eq t "gateway"
      then ok (record { scheme = ""; rest = t })
      else ok (record { scheme = "ftp"; rest = t });
  url_text = λ u. u.rest;
  new_http = λ gateway. failing_until 5;
  new_ipfs = some (failing_until 4);
  ctx_err = ten_calls;
}

third_try : (retry_fetcher (failing_until 2) ten_calls (pos 3)).fetch 0 "/f" ≡ (3, ok (2 ∷ []))
unfolding retry_fetcher retry_loop
third_try = refl

no_more_tries :
    (retry_fetcher (failing_until 3) ten_calls (pos 3)).fetch 0 "/f"
    ≡ (3, err (exhausted (failure "timeout")))
unfolding retry_fetcher retry_loop exceeded
no_more_tries = refl

context_done :
    (retry_fetcher (failing_until 30) ten_calls (pos 3)).fetch 9 "/f"
    ≡ (10, err (failure "context canceled"))
unfolding retry_fetcher retry_loop
context_done = refl

-- three tries over HTTP, one over IPFS, and one more over HTTP
abbrev in_order : Fetcher ℕ
in_order =
    multi_fetcher (http_fetcher sources "" ∷ failing_until 4 ∷ http_fetcher sources "gateway" ∷ [])

finds_file : in_order.fetch 0 "/f" ≡ (6, ok (5 ∷ []))
unfolding multi_fetcher multi_loop http_fetcher retry_fetcher retry_loop exceeded append_error
finds_file = refl

closes_all :
    in_order.close 0
    ≡ (0, some (several (several (failure "stuck") (failure "stuck")) (failure "stuck")))
unfolding multi_fetcher multi_close http_fetcher retry_fetcher append_error
closes_all = refl

abbrev three : List String
three = "https" ∷ "" ∷ "ipfs" ∷ "http://gateway" ∷ []

refuses_scheme : get_migration_fetcher sources ("ipfs" ∷ "ftp://x" ∷ []) ≡ err bad_scheme
unfolding get_migration_fetcher source_fetchers source_fetcher
refuses_scheme = refl

retry_fetcher_lem_example :
    IsRetried
      (failing_until 2)
      ten_calls
      "/f"
      3
      0
      none
      ((retry_fetcher (failing_until 2) ten_calls (pos 3)).fetch 0 "/f")
retry_fetcher_lem_example = retry_fetcher_lem (failing_until 2) ten_calls (pos 3) 0 "/f"

three_chosen : get_migration_fetcher sources three ≡ ok in_order
unfolding get_migration_fetcher source_fetchers source_fetcher http_fetcher
three_chosen = refl

get_migration_fetcher_lem_example :
    (fs : List (Fetcher ℕ)) × AllOffer sources three fs
    × ((path : String) (w : ℕ) → IsFirst path fs w [] (in_order.fetch w path))
get_migration_fetcher_lem_example = get_migration_fetcher_lem sources three in_order three_chosen
