-- ===== src/Plugins/Loader.antt =====
-- kubo-master/plugin/loader/loader.go: the states of the loader, the plugins, and the calls that it
-- makes of them.
use bock_ipfs.Base.{
  ◌==◌, if◌then◌else◌, string_eq, ℕ, String, Bool, false, Option, none, some, List,
}
use bock_ipfs.Base.Dict.{Dict, lookup}

-- `type loaderState`
pub data LoaderState : Type 0 where
  loading : LoaderState
  initializing : LoaderState
  initialized : LoaderState
  injecting : LoaderState
  injected : LoaderState
  starting : LoaderState
  started : LoaderState
  closing : LoaderState
  closed : LoaderState
  failed : LoaderState

-- `loaderState.String`
unfoldable pub state_name : LoaderState → String
state_name loading = "Loading"
state_name initializing = "Initializing"
state_name initialized = "Initialized"
state_name injecting = "Injecting"
state_name injected = "Injected"
state_name starting = "Starting"
state_name started = "Started"
state_name closing = "Closing"
state_name closed = "Closed"
state_name failed = "Failed"

-- the Go comparison of two states
abbrev pub position : LoaderState → ℕ
position loading = 0
position initializing = 1
position initialized = 2
position injecting = 3
position injected = 4
position starting = 5
position started = 6
position closing = 7
position closed = 8
position failed = 9

-- A plugin: its name and version, and which of the interfaces of plugins its type implements.
pub record Plugin : Type 0 where
  pub name : String
  pub version : String
  pub is_ipld : Bool
  pub is_tracer : Bool
  pub is_datastore : Bool
  pub is_fx : Bool
  pub is_daemon : Bool
  pub is_daemon_internal : Bool
  pub is_closer : Bool

-- `config.Plugin`, whose `Config` is any JSON value, by its text
pub record PluginConfig : Type 0 where
  pub disabled : Bool
  pub config : Option String

-- `config.Plugins[name]`, with Go's zero value for a name that is not there
unfoldable pub config_of : Dict String PluginConfig → String → PluginConfig
config_of plugins name = elim (lookup name plugins) [
  | none ↦ record { disabled = false; config = none }
  | some c ↦ c
]

-- The calls that the loader makes of a plugin.
pub data Call : Type 0 where
  init_call : Plugin → String → Option String → Call
  register_ipld : Plugin → Call
  init_tracer : Plugin → Call
  add_datastore : Plugin → Call
  register_fx : Plugin → Call
  start_daemon : Plugin → Call
  start_internal : Plugin → Call
  close_call : Plugin → Call

pub data LoaderError : Type 0 where
  wrong_state : String → String → LoaderError
  duplicated : String → String → String → LoaderError
  config_failed : String → LoaderError
  directory_failed : String → LoaderError
  loading_failed : String → String → LoaderError
  api_failed : String → LoaderError
  plugin_failed : String → LoaderError
  closing_failed : List (String × String) → LoaderError

-- `type PluginLoader`, with the calls that it has made, the last one first.
pub record PluginLoader : Type 0 where
  pub state : LoaderState
  pub plugins : List Plugin
  pub running : List Plugin
  pub config : Dict String PluginConfig
  pub repo : String
  pub calls : List Call

-- What a plugin answers to a call, by all calls before it: the error, or none.
abbrev pub Respond : Type 0
Respond = List Call → Call → Option String

-- `assertState`
unfoldable pub assert_state : PluginLoader → LoaderState → Option LoaderError
unfolding state_name
assert_state l s =
    if position l.state == position s
    then none
    else some (wrong_state (state_name s) (state_name l.state))

-- `transition`
unfoldable pub transition :
    PluginLoader → LoaderState → LoaderState → PluginLoader × Option LoaderError
unfolding assert_state
transition l from to = elim (assert_state l from) [
  | some e ↦ (l, some e)
  | none ↦ (record l { state = to }, none)
]
