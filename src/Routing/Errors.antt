-- ===== src/Routing/Errors.antt =====
-- kubo-master/routing/delegated.go: the errors of the routers that stand alone.
use bock_ipfs.Base.Results.{Result, ok, err}
use bock_ipfs.Base.Int.{ℤ}
use bock_ipfs.Base.Dict.{Dict, lookup}
use bock_ipfs.Base.{
  str_eq, if◌then◌else◌, string_eq, contains, ℕ, String, ◌≡◌, refl, Bool, true, false, some, [],
  ◌∷◌, arith, eq_iff,
}
use bock_ipfs.Routing.Reference.{Justified}
use bock_ipfs.Routing.Settings.{
  RouterConfig, http, dht, Router, RouteError, Clients, made, http_router, dht_router,
}

-- an error is one that the configuration justifies
abbrev pub Fails : Dict String RouterConfig → Result RouteError Router → Type 0
Fails routers (ok r) = Unit
Fails routers (err x) = Justified routers x

if-Fails :
    (routers : Dict String RouterConfig) (b : Bool) (x y : Result RouteError Router)
    → (b ≡ true → Fails routers x)
    → (b ≡ false → Fails routers y)
    → Fails routers (if b then x else y)
if-Fails routers true x y h g = h refl
if-Fails routers false x y h g = g refl

made-Fails : (routers : Dict String RouterConfig) (r : Result String ℕ) → Fails routers (made r)
unfolding made
made-Fails routers (ok handle) = tt
made-Fails routers (err e) = tt

pub http_router-Fails :
    (clients : Clients) (routers : Dict String RouterConfig) (name endpoint : String)
    (batch concurrency : ℤ)
    → lookup name routers ≡ some (http endpoint batch concurrency)
    → Fails routers (http_router clients endpoint batch concurrency)
unfolding http_router
http_router-Fails clients routers name endpoint batch concurrency found =
    if-Fails routers (str_eq endpoint "") _ _
      (λ e. (name, batch, concurrency, ground (arith, eq_iff endpoint "")))
      λ e. made-Fails routers _

pub dht_router-Fails :
    (clients : Clients) (routers : Dict String RouterConfig) (name mode : String)
    (accelerated public : Bool)
    → lookup name routers ≡ some (dht mode accelerated public)
    → Fails routers (dht_router clients mode accelerated public)
unfolding dht_router
dht_router-Fails clients routers name mode true public found = made-Fails routers _
dht_router-Fails clients routers name mode false public found =
    if-Fails routers (contains ("auto" ∷ "client" ∷ "server" ∷ []) mode) _ _
      (λ e. made-Fails routers _) λ e. (name, public, found)
