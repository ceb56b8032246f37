-- ===== src/Plugins/Phases.antt =====
-- kubo-master/plugin/loader/loader.go: the phases of the plugins' life, and `Close`.
use bock_ipfs.Base.{string_eq, ℕ, ◌≤◌, ◌<◌, String, ◌≡◌, refl, List, [], ◌∷◌, arith}
use bock_ipfs.Plugins.Loader.{
  LoaderState, loading, initializing, initialized, injecting, injected, starting, started, closing,
  closed, failed, position, Plugin, Call, init_call, register_ipld, init_tracer, add_datastore,
  register_fx, start_daemon, start_internal, close_call, PluginLoader, Respond,
}
use bock_ipfs.Plugins.Naming.{Distinct}
use bock_ipfs.Plugins.Running.{closed_with, close_plugin, close_all, close}

-- the phase of a plugin's life that a call belongs to
abbrev pub phase : Call → ℕ
phase (init_call p r c) = 0
phase (register_ipld p) = 1
phase (init_tracer p) = 1
phase (add_datastore p) = 1
phase (register_fx p) = 1
phase (start_daemon p) = 2
phase (start_internal p) = 2
phase (close_call p) = 3

-- the last phase that a loader in a state can have begun
abbrev pub reached : LoaderState → ℕ
reached loading = 0
reached initializing = 0
reached initialized = 0
reached injecting = 1
reached injected = 1
reached starting = 2
reached started = 2
reached closing = 3
reached closed = 3
reached failed = 3

-- The calls, the last one first, never go back to an earlier phase, and none is beyond `n`.
abbrev pub IsPhased : ℕ → List Call → Type 0
IsPhased n [] = Unit {0}
IsPhased n (c ∷ cs) = (phase c ≤ n) × IsPhased (phase c) cs

pub IsPhased-le : {n m : ℕ} (cs : List Call) → n ≤ m → IsPhased n cs → IsPhased m cs
IsPhased-le [] le h = tt
IsPhased-le (c ∷ cs) le h = (omega (arith, h.0), h.1)

-- What a loop that calls plugins leaves: the calls go no further than `n`, and what runs and which
-- plugins there are is as before.
pub record Kept (n : ℕ) (l l' : PluginLoader) : Type 0 where
  pub phased : IsPhased n l'.calls
  pub same_running : l'.running ≡ l.running
  pub same_plugins : l'.plugins ≡ l.plugins

abbrev pub with_call : PluginLoader → Call → PluginLoader
with_call l c = record l { calls = c ∷ l.calls }

module _ (respond : Respond) where
  close_plugin-Kept :
      (l : PluginLoader) (p : Plugin) (errs : List (String × String))
      → IsPhased 3 l.calls
      → Kept 3 l (close_plugin respond l p errs).0
  unfolding close_plugin
  close_plugin-Kept l p errs h = ground arith

  pub close_all-Kept :
      (l : PluginLoader) (ps : List Plugin) (errs : List (String × String))
      → IsPhased 3 l.calls
      → Kept 3 l (close_all respond l ps errs).0
  unfolding close_all
  close_all-Kept l [] errs h = record { phased = h; same_running = refl; same_plugins = refl }
  close_all-Kept l (p ∷ ps) errs h =
      let (l', errs') = close_plugin respond l p errs in
      ground (arith, close_plugin-Kept l p errs, close_all-Kept l' ps errs')

-- What holds of a loader between two of its operations.
pub record IsOrdered (l : PluginLoader) : Type 0 where
  pub phased : IsPhased (reached l.state) l.calls
  pub idle : position l.state < 5 → l.running ≡ []
  pub over : 6 < position l.state → l.running ≡ []
  pub distinct : Distinct l.plugins

module _ (respond : Respond) where
  closed_with-IsOrdered :
      (l : PluginLoader) (errs : List (String × String))
      → IsPhased 3 l.calls
      → l.running ≡ []
      → Distinct l.plugins
      → IsOrdered (closed_with l errs).0
  unfolding closed_with
  closed_with-IsOrdered l [] h r d = record {
    phased = h;
    idle = λ lt. r;
    over = λ lt. r;
    distinct = d;
  }
  closed_with-IsOrdered l (e ∷ es) h r d = record {
    phased = h;
    idle = λ lt. r;
    over = λ lt. r;
    distinct = d;
  }

  reached-le : (s : LoaderState) → reached s ≤ 3
  reached-le s = ground arith

  pub close-IsOrdered : (l : PluginLoader) → IsOrdered l → IsOrdered (close respond l).0
  unfolding close
  close-IsOrdered l o =
      let l' : PluginLoader = record l { state = closing; running = [] } in
      let (l'', errs) = close_all respond l' l.running [] in
      let ended =
        close_all-Kept respond l' l.running []
          (IsPhased-le l.calls (reached-le l.state) o.phased) in
      let named : Distinct l''.plugins = rw ended.same_plugins o.distinct in
      ground (arith, closed_with-IsOrdered l'' errs ended.phased ended.same_running named)
