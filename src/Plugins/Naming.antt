-- ===== src/Plugins/Naming.antt =====
-- kubo-master/plugin/loader/loader.go: the plugins that are loaded have different names.
use bock_ipfs.Base.{
  str_eq, string_eq, String, ◌≡◌, refl, inl, inr, false, none, List, [], ◌∷◌, ◌++◌, arith, eq_iff,
}
use bock_ipfs.Base.Results.{Result, Result-cases}
use bock_ipfs.Plugins.Loader.{Plugin, PluginLoader}
use bock_ipfs.Plugins.Loading.{
  find_plugin, load, load_all, Stat, load_dynamic_plugins, load_directory,
}

find_plugin-append :
    (name : String) (ps : List Plugin) (p : Plugin)
    → find_plugin name ps ≡ none
    → str_eq p.name name ≡ false
    → find_plugin name (ps ++ p ∷ []) ≡ none
unfolding find_plugin
find_plugin-append name [] p absent other = ground arith
find_plugin-append name (q ∷ ps) p absent other = ground (arith, find_plugin-append name ps p)

-- No two plugins of the list have one name.
abbrev pub Distinct : List Plugin → Type 0
Distinct [] = Unit {0}
Distinct (p ∷ ps) = (find_plugin p.name ps ≡ none) × Distinct ps

Distinct-append :
    (ps : List Plugin) (p : Plugin)
    → Distinct ps
    → find_plugin p.name ps ≡ none
    → Distinct (ps ++ p ∷ [])
unfolding find_plugin
Distinct-append [] p d absent = (refl, tt)
Distinct-append (q ∷ ps) p d absent = ground (
  arith,
  find_plugin-append q.name ps p,
  eq_iff q.name p.name,
  eq_iff p.name q.name,
  Distinct-append ps p,
)

-- What `Load` and `LoadDirectory` leave alone, and that the names stay different.
pub record Loaded (l l' : PluginLoader) : Type 0 where
  pub same_state : l'.state ≡ l.state
  pub same_calls : l'.calls ≡ l.calls
  pub same_running : l'.running ≡ l.running
  pub distinct : Distinct l.plugins → Distinct l'.plugins

pub load-Loaded : (l : PluginLoader) (p : Plugin) → Loaded l (load l p).0
unfolding load
load-Loaded l p = ground (arith, Distinct-append l.plugins p)

load_all-Loaded : (l : PluginLoader) (ps : List Plugin) → Loaded l (load_all l ps).0
unfolding load_all
load_all-Loaded l [] = record {
  same_state = refl;
  same_calls = refl;
  same_running = refl;
  distinct = λ d. d;
}
load_all-Loaded l (p ∷ ps) =
    let (l', e) = load l p in ground (arith, load-Loaded l p, load_all-Loaded l' ps)

pub load_directory-Loaded :
    (load_plugin : String → Result String (List Plugin)) (l : PluginLoader) (dir : Stat)
    → Loaded l (load_directory load_plugin l dir).0
unfolding load_directory
load_directory-Loaded load_plugin l dir =
    elim (Result-cases (load_dynamic_plugins load_plugin dir)) [
      | inl (ps, found) ↦ ground (arith, load_all-Loaded l ps)
      | inr (e, failing) ↦ ground arith
    ]
