-- ===== src/Routing/Settings.antt =====
-- kubo-master/routing/delegated.go and kubo-master/config/routing.go: the configuration of routers, and
-- the routers that stand alone.
use bock_ipfs.Base.Results.{Result, ok, err}
use bock_ipfs.Base.Int.{ℤ, pos, int_beq}
use bock_ipfs.Base.Dict.{Dict, lookup}
use bock_ipfs.Base.{
  str_eq, if◌then◌else◌, string_eq, contains, ℕ, String, Bool, true, false, Option, none, some,
  List, [], ◌∷◌,
}

-- `type ConfigRouter`; durations are nanoseconds
pub record Child : Type 0 where
  pub router_name : String
  pub timeout : ℤ
  pub ignore_errors : Bool
  pub execute_after : Option ℤ

-- `type Router` of the configuration, with the parameters that its type has
pub data RouterConfig : Type 0 where
  http :
      (endpoint : String)
      → (max_provide_batch_size : ℤ) → (max_provide_concurrency : ℤ) → RouterConfig
  dht : (mode : String) → (accelerated : Bool) → (public_ip_network : Bool) → RouterConfig
  parallel : List Child → RouterConfig
  sequential : List Child → RouterConfig
  unknown_type : String → RouterConfig

-- a `ParallelRouter` or a `SequentialRouter` without its router
pub record EntrySettings : Type 0 where
  pub ignore_error : Bool
  pub do_not_wait_for_search_value : Bool
  pub timeout : ℤ
  pub execute_after : ℤ

unfoldable pub parallel_entry : Child → EntrySettings
parallel_entry cr = record {
  ignore_error = cr.ignore_errors;
  do_not_wait_for_search_value = true;
  timeout = cr.timeout;
  execute_after = elim cr.execute_after [ none ↦ pos 0 | some d ↦ d ];
}

-- a `SequentialRouter` has no delay and no flag
unfoldable pub sequential_entry : Child → EntrySettings
sequential_entry cr = record {
  ignore_error = cr.ignore_errors;
  do_not_wait_for_search_value = false;
  timeout = cr.timeout;
  execute_after = pos 0;
}

-- A router that was built: a client, by its handle, or a composed router.
mutual
  pub data Router : Type 0 where
    client : ℕ → Router
    parallel_of : Routers → Router
    sequential_of : Routers → Router

  pub data Routers : Type 0 where
    no_routers : Routers
    entry : Router → EntrySettings → Routers → Routers

pub data RouteError : Type 0 where
  method_missing : String → RouteError
  method_unsupported : String → RouteError
  dependency_loop : String → RouteError
  router_not_found : String → RouteError
  type_unknown : String → RouteError
  param_needed : String → RouteError
  invalid_dht_mode : String → RouteError
  client_failed : String → RouteError

-- What the libraries make: an HTTP client, the accelerated DHT client and a DHT by its mode, as
-- handles; and the number of threads that Go uses.
pub record Clients : Type 0 where
  pub gomaxprocs : ℤ
  pub new_http : String → ℤ → ℤ → Result String ℕ
  pub new_full_rt : Result String ℕ
  pub new_dht : (public : Bool) → (mode : String) → Result String ℕ

unfoldable pub made : Result String ℕ → Result RouteError Router
made (ok handle) = ok (client handle)
made (err e) = err (client_failed e)

-- `httpRoutingFromConfig`, with `FillDefaults`
unfoldable pub http_router : Clients → String → ℤ → ℤ → Result RouteError Router
unfolding made
http_router clients endpoint batch concurrency =
    if str_eq endpoint ""
    then err (param_needed "Endpoint")
    else made (
        clients.new_http endpoint (if int_beq batch (pos 0) then pos 100 else batch)
          (if int_beq concurrency (pos 0) then clients.gomaxprocs else concurrency))

-- `dhtRoutingFromConfig`
unfoldable pub dht_router : Clients → String → Bool → Bool → Result RouteError Router
unfolding made
dht_router clients mode accelerated public =
    if accelerated
    then made clients.new_full_rt
    else if contains ("auto" ∷ "client" ∷ "server" ∷ []) mode
    then made (clients.new_dht public mode)
    else err (invalid_dht_mode mode)

-- `MethodNameList`
abbrev pub method_names : List String
method_names = "provide" ∷ "find-peers" ∷ "find-providers" ∷ "get-ipns" ∷ "put-ipns" ∷ []

-- the first loop of `Methods.Check`
unfoldable pub check_present : List String → Dict String String → Option RouteError
check_present [] methods = none
check_present (mn ∷ mns) methods = elim (lookup mn methods) [
  | none ↦ some (method_missing mn)
  | some name ↦ check_present mns methods
]

-- the second loop
unfoldable pub check_supported : Dict String String → Option RouteError
check_supported [] = none
check_supported ((k, name) ∷ methods) =
    let rest = check_supported methods in
    if contains method_names k then rest else some (method_unsupported k)

-- `Methods.Check`
unfoldable pub check_methods : Dict String String → Option RouteError
check_methods methods = elim (check_present method_names methods) [
  | some x ↦ some x
  | none ↦ check_supported methods
]
