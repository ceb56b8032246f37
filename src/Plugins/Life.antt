-- ===== src/Plugins/Life.antt =====
-- kubo-master/plugin/loader/loader.go: the life of a loader, as the operations that a node calls.
use bock_ipfs.Base.{String, refl, Option, List, arith}
use bock_ipfs.Base.Dict.{Dict}
use bock_ipfs.Base.Results.{Result}
use bock_ipfs.Plugins.Loader.{Plugin, PluginConfig, PluginLoader, Respond}
use bock_ipfs.Plugins.Loading.{load, Stat, load_directory, new_loader}
use bock_ipfs.Plugins.Naming.{Loaded, load-Loaded, load_directory-Loaded}
use bock_ipfs.Plugins.Running.{initialize, inject, close, start}
use bock_ipfs.Plugins.Phases.{IsOrdered, close-IsOrdered}
use bock_ipfs.Plugins.Stages.{initialize-IsOrdered, inject-IsOrdered, start-IsOrdered}

-- One operation of the loader, called in any state; plugins answer as they like.
pub data Step (l : PluginLoader) : PluginLoader → Type 0 where
  loads : (p : Plugin) → Step l (load l p).0
  loads_directory :
      (load_plugin : String → Result String (List Plugin)) (dir : Stat)
      → Step l (load_directory load_plugin l dir).0
  initializes : (respond : Respond) → Step l (initialize respond l).0
  injects : (respond : Respond) → Step l (inject respond l).0
  starts :
      (respond : Respond) (new_core_api : Option String) → Step l (start respond new_core_api l).0
  closes : (respond : Respond) → Step l (close respond l).0

pub data Reach (repo : String) (config : Dict String PluginConfig) : PluginLoader → Type 0 where
  created : Reach repo config (new_loader repo config)
  next : {l l' : PluginLoader} → Reach repo config l → Step l l' → Reach repo config l'

Loaded-IsOrdered : {l l' : PluginLoader} → Loaded l l' → IsOrdered l → IsOrdered l'
Loaded-IsOrdered d o = ground (arith, d.distinct o.distinct)

Step-IsOrdered : {l l' : PluginLoader} → Step l l' → IsOrdered l → IsOrdered l'
Step-IsOrdered (loads p) o = Loaded-IsOrdered (load-Loaded _ p) o
Step-IsOrdered (loads_directory f dir) o = Loaded-IsOrdered (load_directory-Loaded f _ dir) o
Step-IsOrdered (initializes respond) o = initialize-IsOrdered respond _ o
Step-IsOrdered (injects respond) o = inject-IsOrdered respond _ o
Step-IsOrdered (starts respond api) o = start-IsOrdered respond api _ o
Step-IsOrdered (closes respond) o = close-IsOrdered respond _ o

-- In every loader that the operations can lead to, called in any order and with any answers of
-- the plugins, no plugin was called for an earlier phase (initialise, inject, start, close) after a
-- later one and none for a phase that the loader's state has not begun, no plugin is listed as
-- started before `Start` or after `Close` or a failure, and all plugins have different names.
pub Reach-IsOrdered :
    {repo : String} {config : Dict String PluginConfig} {l : PluginLoader}
    → Reach repo config l
    → IsOrdered l
Reach-IsOrdered created = record {
  phased = tt;
  idle = λ lt. refl;
  over = λ lt. refl;
  distinct = tt;
}
Reach-IsOrdered (next old step) = Step-IsOrdered step (Reach-IsOrdered old)
