-- ===== src/Repo/Migrations/Fetchers/Offering.antt =====
-- kubo-master/repo/fsrepo/migrations/migrations.go: the fetchers that `GetMigrationFetcher` makes of
-- the sources.
use bock_ipfs.Base.Results.{ok, Result-cases, ok_injective}
use bock_ipfs.Base.Int.{pos}
use bock_ipfs.Base.{
  str_eq, Bool-cases, string_eq, contains, In, contains-In, String, ◌≡◌, subst, inl, inr, Option,
  none, some, List, [], ◌∷◌, arith, eq_iff,
}
use bock_ipfs.Repo.Migrations.Fetchers.{
  Fetcher, retry_fetcher, Url, Sources, http_fetcher, source_fetcher, source_fetchers,
}

module _ {World : Type 0} where
  -- What a source, without the space around it, is a fetcher of, if of anything: HTTP by its name is
  -- the default gateway and a URL a gateway, each tried three times; IPFS is the fetcher for it, if
  -- there is one; and nothing is nothing.
  pub data Offers (s : Sources World) (src : String) (found : Option (Fetcher World)) : Type 0 where
    http_by_name :
        In src ("HTTPS" ∷ "https" ∷ "HTTP" ∷ "http" ∷ [])
        → found ≡ some (retry_fetcher (s.new_http "") s.ctx_err (pos 3))
        → Offers s src found
    ipfs_by_name : In src ("IPFS" ∷ "ipfs" ∷ []) → found ≡ s.new_ipfs → Offers s src found
    no_text : src ≡ "" → found ≡ none → Offers s src found
    no_scheme :
        (u : Url)
        → s.parse_url src ≡ ok u
        → u.scheme ≡ ""
        → found
          ≡ some (
              retry_fetcher
                (s.new_http (s.url_text (record u { scheme = "https" })))
                s.ctx_err
                (pos 3))
        → Offers s src found
    of_url :
        (u : Url)
        → s.parse_url src ≡ ok u
        → In u.scheme ("https" ∷ "http" ∷ [])
        → found ≡ some (retry_fetcher (s.new_http (s.url_text u)) s.ctx_err (pos 3))
        → Offers s src found

  -- the fetchers of the sources, in their order
  pub data AllOffer (s : Sources World) : List String → List (Fetcher World) → Type 0 where
    no_more : AllOffer s [] []
    skipped :
        {src : String} {srcs : List String} {fs : List (Fetcher World)}
        → Offers s (s.trim src) none
        → AllOffer s srcs fs
        → AllOffer s (src ∷ srcs) fs
    offered :
        {src : String} {srcs : List String} {f : Fetcher World} {fs : List (Fetcher World)}
        → Offers s (s.trim src) (some f)
        → AllOffer s srcs fs
        → AllOffer s (src ∷ srcs) (f ∷ fs)

  source_fetcher-Offers :
      (s : Sources World) (src : String) (found : Option (Fetcher World))
      → source_fetcher s src ≡ ok found
      → Offers s src found
  unfolding source_fetcher http_fetcher
  source_fetcher-Offers s src found h =
      elim (Bool-cases (contains ("HTTPS" ∷ "https" ∷ "HTTP" ∷ "http" ∷ []) src)) [
        | inl http ↦
            http_by_name (contains-In ("HTTPS" ∷ "https" ∷ "HTTP" ∷ "http" ∷ []) src http)
              (ground (arith, h, http))
        | inr other ↦ elim (Bool-cases (contains ("IPFS" ∷ "ipfs" ∷ []) src)) [
          | inl ipfs ↦
              ipfs_by_name (contains-In ("IPFS" ∷ "ipfs" ∷ []) src ipfs)
                (ground (arith, h, other, ipfs))
          | inr unnamed ↦ elim (Bool-cases (str_eq src "")) [
            | inl nothing ↦
                no_text (ground (arith, nothing, eq_iff src ""))
                  (ground (arith, h, other, unnamed, nothing))
            | inr text ↦ elim (Result-cases (s.parse_url src)) [
              | inr (e, bad) ↦ absurd (ground (arith, h, other, unnamed, text, bad))
              | inl (u, parsed) ↦ elim (Bool-cases (str_eq u.scheme "")) [
                | inl bare ↦
                    no_scheme u parsed (ground (arith, bare, eq_iff u.scheme ""))
                      (ground (arith, h, other, unnamed, text, parsed, bare))
                | inr schemed ↦ elim (Bool-cases (contains ("https" ∷ "http" ∷ []) u.scheme)) [
                  | inl web ↦
                      of_url u parsed (contains-In ("https" ∷ "http" ∷ []) u.scheme web)
                        (ground (arith, h, other, unnamed, text, parsed, schemed, web))
                  | inr strange ↦
                      absurd (ground (arith, h, other, unnamed, text, parsed, schemed, strange))
                ]
              ]
            ]
          ]
        ]
      ]

  pub source_fetchers-AllOffer :
      (s : Sources World) (srcs : List String) (fs : List (Fetcher World))
      → source_fetchers s srcs ≡ ok fs
      → AllOffer s srcs fs
  unfolding source_fetchers
  source_fetchers-AllOffer s [] fs h = subst (AllOffer s []) (ok_injective h) no_more
  source_fetchers-AllOffer s (src ∷ srcs) fs h =
      elim (Result-cases (source_fetcher s (s.trim src))) [
        | inr (e, bad) ↦ absurd (cc (rw (bad, source_fetchers) at h))
        | inl (none, found) ↦ elim (Result-cases (source_fetchers s srcs)) [
          | inr (e, bad) ↦ absurd (cc (rw (found, bad, source_fetchers) at h))
          | inl (gs, rest) ↦
              subst (AllOffer s (src ∷ srcs))
                (ok_injective (rw (found, rest, source_fetchers) at h))
                (skipped (source_fetcher-Offers s (s.trim src) none found)
                  (source_fetchers-AllOffer s srcs gs rest))
        ]
        | inl (some f, found) ↦ elim (Result-cases (source_fetchers s srcs)) [
          | inr (e, bad) ↦ absurd (cc (rw (found, bad, source_fetchers) at h))
          | inl (gs, rest) ↦
              subst (AllOffer s (src ∷ srcs))
                (ok_injective (rw (found, rest, source_fetchers) at h))
                (offered (source_fetcher-Offers s (s.trim src) (some f) found)
                  (source_fetchers-AllOffer s srcs gs rest))
        ]
      ]
