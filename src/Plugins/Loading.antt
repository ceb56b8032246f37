-- ===== src/Plugins/Loading.antt =====
-- kubo-master/plugin/loader/loader.go: `NewPluginLoader`, `Load`, `LoadDirectory` and
-- `loadDynamicPlugins`.
use bock_ipfs.Base.{
  str_eq, if◌then◌else◌, String, Bool, true, false, Option, none, some, List, [], ◌∷◌, ◌++◌,
}
use bock_ipfs.Base.Dict.{Dict}
use bock_ipfs.Base.Results.{Result, ok, err}
use bock_ipfs.Plugins.Loader.{
  loading, Plugin, PluginConfig, config_of, LoaderError, duplicated, config_failed,
  directory_failed, loading_failed, PluginLoader, assert_state,
}

-- the loop of `Load` that looks for a plugin of the same name
unfoldable pub find_plugin : String → List Plugin → Option Plugin
find_plugin name [] = none
find_plugin name (p ∷ ps) = if str_eq p.name name then some p else find_plugin name ps

-- `Load` in the state in which it is allowed
load_unique : PluginLoader → Plugin → Option Plugin → PluginLoader × Option LoaderError
load_unique l pl (some p) = (l, some (duplicated pl.name p.version pl.version))
load_unique l pl none =
    if (config_of l.config pl.name).disabled
    then (l, none)
    else (record l { plugins = l.plugins ++ pl ∷ [] }, none)

-- `Load`
unfoldable pub load : PluginLoader → Plugin → PluginLoader × Option LoaderError
unfolding load_unique
load l pl = elim (assert_state l loading) [
  | some e ↦ (l, some e)
  | none ↦ load_unique l pl (find_plugin pl.name l.plugins)
]

-- The loops that load a list of plugins, up to the first error.
unfoldable pub load_all : PluginLoader → List Plugin → PluginLoader × Option LoaderError
load_all l [] = (l, none)
load_all l (pl ∷ pls) =
    let (l', e) = load l pl in elim e [ some x ↦ (l', some x) | none ↦ load_all l' pls ]

-- What `filepath.Walk` shows the callback: a file, or an error instead of one.
pub data Walked : Type 0 where
  entry : String → (is_dir : Bool) → (executable : Bool) → Walked
  walk_failed : String → Walked

-- the callback of `loadDynamicPlugins`, by the result of `loadPluginFunc` on the file
unfoldable pub load_file :
    (String → Result String (List Plugin)) → Walked → Result LoaderError (List Plugin)
load_file load_plugin (walk_failed e) = err (directory_failed e)
load_file load_plugin (entry path true executable) = ok []
load_file load_plugin (entry path false false) = ok []
load_file load_plugin (entry path false true) = elim (load_plugin path) [
  | ok pls ↦ ok pls
  | err e ↦ err (loading_failed path e)
]

-- the walk, which ends with the first error
unfoldable pub walk_files :
    (String → Result String (List Plugin))
    → List Plugin
    → List Walked
    → Result LoaderError (List Plugin)
unfolding load_file
walk_files load_plugin found [] = ok found
walk_files load_plugin found (w ∷ ws) = elim (load_file load_plugin w) [
  | err e ↦ err e
  | ok pls ↦ walk_files load_plugin (found ++ pls) ws
]

-- What `os.Stat` says of the directory of plugins.
pub data Stat : Type 0 where
  exists : List Walked → Stat
  not_exist : Stat
  stat_failed : String → Stat

-- `loadDynamicPlugins`
unfoldable pub load_dynamic_plugins :
    (String → Result String (List Plugin)) → Stat → Result LoaderError (List Plugin)
unfolding walk_files
load_dynamic_plugins load_plugin not_exist = ok []
load_dynamic_plugins load_plugin (stat_failed e) = err (directory_failed e)
load_dynamic_plugins load_plugin (exists files) = walk_files load_plugin [] files

-- `LoadDirectory`
unfoldable pub load_directory :
    (String → Result String (List Plugin)) → PluginLoader → Stat → PluginLoader × Option LoaderError
load_directory load_plugin l dir = elim (assert_state l loading) [
  | some e ↦ (l, some e)
  | none ↦ elim (load_dynamic_plugins load_plugin dir) [
    | err e ↦ (l, some e)
    | ok pls ↦ load_all l pls
  ]
]

-- What `readPluginsConfig` returns: the section, that there is no file, or another error.
pub data ConfigFile : Type 0 where
  read : Dict String PluginConfig → ConfigFile
  no_file : ConfigFile
  read_failed : String → ConfigFile

-- the switch of `NewPluginLoader` over the configuration
unfoldable pub configured : String → ConfigFile → Result LoaderError (Dict String PluginConfig)
configured repo file = if str_eq repo "" then ok [] else elim file [
  | read plugins ↦ ok plugins
  | no_file ↦ ok []
  | read_failed e ↦ err (config_failed e)
]

abbrev pub new_loader : String → Dict String PluginConfig → PluginLoader
new_loader repo config = record {
  state = loading;
  plugins = [];
  running = [];
  config = config;
  repo = repo;
  calls = [];
}

-- `NewPluginLoader`
unfoldable pub new_plugin_loader :
    (String → Result String (List Plugin))
    → List Plugin
    → String
    → ConfigFile
    → Stat
    → Result LoaderError PluginLoader
new_plugin_loader load_plugin preloaded repo file dir = elim (configured repo file) [
  | err e ↦ err e
  | ok config ↦
      let (l, e) = load_all (new_loader repo config) preloaded in
      elim e [
        | some x ↦ err x
        | none ↦
            let (l', e') = load_directory load_plugin l dir in
            elim e' [ some x ↦ err x | none ↦ ok l' ]
      ]
]
