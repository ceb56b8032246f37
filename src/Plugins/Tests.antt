-- ===== src/Plugins/Tests.antt =====
-- Runs of the loader of plugins, and instances of the theorems.
use bock_ipfs.Base.Dict.{lookup}
use bock_ipfs.Base.{
  str_eq, if◌then◌else◌, string_eq, String, ◌≡◌, refl, ◌≢◌, ◌⊎◌, true, false, none, some, [], ◌∷◌,
}
use bock_ipfs.Base.Results.{ok}
use bock_ipfs.Plugins.Loader.{
  injected, closing, closed, failed, state_name, Plugin, config_of, start_daemon, start_internal,
  close_call, wrong_state, duplicated, plugin_failed, closing_failed, PluginLoader, Respond,
  assert_state, transition,
}
use bock_ipfs.Plugins.Loading.{
  find_plugin, load, load_all, entry, exists, load_dynamic_plugins, load_directory, no_file,
  configured, new_loader, new_plugin_loader,
}
use bock_ipfs.Plugins.Running.{
  injections, closed_with, is_over, starts, call, init_all, initialize, inject_call, inject_calls,
  inject_all, inject, close_plugin, close_all, close, start_by, start_calls, start_all, start,
}
use bock_ipfs.Plugins.Phases.{IsOrdered}
use bock_ipfs.Plugins.Life.{Step, loads, initializes, injects, created, next, Reach-IsOrdered}
use bock_ipfs.Plugins.Stopping.{closers, complaints, close_stops}
use bock_ipfs.Plugins.Starting.{Started, start_lem}

abbrev daemon : String → Plugin
daemon name = record {
  name = name;
  version = "1";
  is_ipld = false;
  is_tracer = false;
  is_datastore = false;
  is_fx = false;
  is_daemon = true;
  is_daemon_internal = false;
  is_closer = true;
}

-- every call succeeds, except for starting the plugin "b" and closing the plugin "a"
abbrev answers : Respond
answers before (start_daemon p) = if str_eq p.name "b" then some "no port" else none
answers before (close_call p) = if str_eq p.name "a" then some "stuck" else none
answers before _ = none

abbrev of_two : PluginLoader
of_two = (load_all (new_loader "" []) (daemon "a" ∷ daemon "b" ∷ [])).0

abbrev ready : PluginLoader
ready = (inject answers (initialize answers of_two).0).0

-- "b" does not start, so "a" is closed, which fails in turn
failing_start :
    let (l, e) = start answers none ready in
    (l.state ≡ failed)
    × (e ≡ some (plugin_failed "no port"))
    × (l.calls
        ≡ close_call (daemon "a")
          ∷ start_daemon (daemon "b")
          ∷ start_daemon (daemon "a")
          ∷ ready.calls)
unfolding start transition inject initialize load_all load find_plugin config_of lookup init_all
    inject_all inject_calls injections start_all start_calls starts start_by assert_state state_name
    call close close_all close_plugin closed_with inject_call is_over
failing_start = (refl, refl, refl)

twice :
    (load (load (new_loader "" []) (daemon "a")).0 (daemon "a")).1 ≡ some (duplicated "a" "1" "1")
unfolding load assert_state find_plugin config_of lookup
twice = refl

too_early : (start answers none of_two).1 ≡ some (wrong_state "Injected" "Loading")
unfolding start transition load_all load find_plugin config_of lookup
too_early = refl

-- what is not executable is skipped
directory :
    (r : PluginLoader) × (new_plugin_loader
        (λ path. ok (daemon path ∷ []))
        []
        "/repo"
        no_file
        (exists
          (entry "/repo/plugins" true true ∷ entry "x" false false ∷ entry "y" false true ∷ []))
      ≡ ok r)
    × (r.plugins ≡ daemon "y" ∷ [])
unfolding new_plugin_loader configured load_all load_directory assert_state load_dynamic_plugins
    load find_plugin config_of lookup
directory = (record (new_loader "/repo" []) { plugins = daemon "y" ∷ [] }, refl, refl)

Reach-IsOrdered_example : IsOrdered (start answers none ready).0
unfolding load_all load assert_state find_plugin config_of lookup
Reach-IsOrdered_example = Reach-IsOrdered {repo = ""} {config = []} (
    next
      (next
        (next (next (next created (loads (daemon "a"))) (loads (daemon "b"))) (initializes answers))
        (injects answers))
      (Step.starts answers none))

start_lem_example : Started answers ready (start answers none ready)
unfolding inject transition initialize load_all load find_plugin config_of lookup init_all
    inject_all inject_calls injections
start_lem_example = start_lem answers ready refl refl

abbrev of_both : Plugin
of_both = record (daemon "c") { is_daemon_internal = true }

-- a plugin of both interfaces is started by both
both_starts :
    let (l, e) =
      start answers none (record (new_loader "" []) { state = injected; plugins = of_both ∷ [] }) in
    (e ≡ none) × (l.calls ≡ start_internal of_both ∷ start_daemon of_both ∷ [])
unfolding start transition start_all start_calls starts start_by assert_state state_name call
both_starts = (refl, refl)

abbrev running_a : PluginLoader
running_a = record (new_loader "" []) { state = injected; running = daemon "a" ∷ [] }

close_stops_example :
    ((running_a.state ≡ closing) ⊎ (running_a.state ≡ failed) ⊎ (running_a.state ≡ closed)
      → close answers running_a ≡ (running_a, none))
    × (running_a.state ≢ closing
        → running_a.state ≢ failed
        → running_a.state ≢ closed
        → let (l', e) = close answers running_a in
          (l'.calls ≡ close_call (daemon "a") ∷ [])
          × (l'.running ≡ [])
          × (complaints answers (closers running_a.running) running_a.calls ≡ []
              → (l'.state ≡ closed) × (e ≡ none))
          × (complaints answers (closers running_a.running) running_a.calls ≢ []
              → (l'.state ≡ failed)
                × (e
                    ≡ some (
                        closing_failed
                          (complaints answers (closers running_a.running) running_a.calls))))
          × (close answers l' ≡ (l', none)))
close_stops_example = close_stops answers running_a
