-- ===== src/Plugins/Running.antt =====
-- kubo-master/plugin/loader/loader.go: `Initialize`, `Inject`, `Start` and `Close`.
use bock_ipfs.Base.{
  if◌then◌else◌, String, Bool, true, false, Option, none, some, List, [], ◌∷◌, ◌++◌,
}
use bock_ipfs.Plugins.Loader.{
  LoaderState, loading, initializing, initialized, injecting, injected, starting, started, closing,
  closed, failed, Plugin, config_of, Call, init_call, register_ipld, init_tracer, add_datastore,
  register_fx, start_daemon, start_internal, close_call, LoaderError, api_failed, plugin_failed,
  closing_failed, PluginLoader, Respond, transition,
}

-- The calls by which a plugin is injected, in their order.
unfoldable pub injections : Plugin → List Call
injections pl =
    (if pl.is_ipld then register_ipld pl ∷ [] else [])
    ++ (if pl.is_tracer then init_tracer pl ∷ [] else [])
    ++ (if pl.is_datastore then add_datastore pl ∷ [] else [])
    ++ (if pl.is_fx then register_fx pl ∷ [] else [])

-- the end of `Close`
unfoldable pub closed_with :
    PluginLoader → List (String × String) → PluginLoader × Option LoaderError
closed_with l [] = (record l { state = closed }, none)
closed_with l (e ∷ es) = (record l { state = failed }, some (closing_failed (e ∷ es)))

-- the states in which `Close` has nothing to do
unfoldable pub is_over : LoaderState → Bool
is_over closing = true
is_over failed = true
is_over closed = true
is_over _ = false

-- the calls by which a plugin is started
unfoldable pub starts : Plugin → List Call
starts pl =
    (if pl.is_daemon then start_daemon pl ∷ [] else [])
    ++ (if pl.is_daemon_internal then start_internal pl ∷ [] else [])

module _ (respond : Respond) where
  -- The loader calls a plugin, which is recorded, and goes on unless there is an error.
  unfoldable pub call : PluginLoader → Call → PluginLoader × Option String
  call l c = (record l { calls = c ∷ l.calls }, respond l.calls c)

  abbrev pub fail : PluginLoader → String → PluginLoader × Option LoaderError
  fail l e = (record l { state = failed }, some (plugin_failed e))

  -- the loop of `Initialize`
  unfoldable pub init_all : PluginLoader → List Plugin → PluginLoader × Option LoaderError
  unfolding call
  init_all l [] = (l, none)
  init_all l (p ∷ ps) =
      let (l', e) = call l (init_call p l.repo (config_of l.config p.name).config) in
      elim e [ some x ↦ fail l' x | none ↦ init_all l' ps ]

  -- `Initialize`
  unfoldable pub initialize : PluginLoader → PluginLoader × Option LoaderError
  initialize l =
      let (l1, e1) = transition l loading initializing in
      elim e1 [
        | some x ↦ (l1, some x)
        | none ↦
            let (l2, e2) = init_all l1 l1.plugins in
            elim e2 [ some x ↦ (l2, some x) | none ↦ transition l2 initializing initialized ]
      ]

  -- `injectIPLDPlugin`, `injectTracerPlugin`, `injectDatastorePlugin`, and `injectFxPlugin`, which
  -- has no error
  unfoldable pub inject_call : PluginLoader → Call → PluginLoader × Option String
  unfolding call
  inject_call l (register_fx p) = (record l { calls = register_fx p ∷ l.calls }, none)
  inject_call l c = call l c

  -- the body of the loop of `Inject`: each call that the plugin's type allows, up to an error
  unfoldable pub inject_calls : PluginLoader → List Call → PluginLoader × Option LoaderError
  unfolding inject_call
  inject_calls l [] = (l, none)
  inject_calls l (c ∷ cs) =
      let (l', e) = inject_call l c in elim e [ some x ↦ fail l' x | none ↦ inject_calls l' cs ]

  unfoldable pub inject_all : PluginLoader → List Plugin → PluginLoader × Option LoaderError
  inject_all l [] = (l, none)
  inject_all l (p ∷ ps) =
      let (l', e) = inject_calls l (injections p) in
      elim e [ some x ↦ (l', some x) | none ↦ inject_all l' ps ]

  -- `Inject`
  unfoldable pub inject : PluginLoader → PluginLoader × Option LoaderError
  inject l =
      let (l1, e1) = transition l initialized injecting in
      elim e1 [
        | some x ↦ (l1, some x)
        | none ↦
            let (l2, e2) = inject_all l1 l1.plugins in
            elim e2 [ some x ↦ (l2, some x) | none ↦ transition l2 injecting injected ]
      ]

  -- the body of the loop of `Close`, with the errors so far
  unfoldable pub close_plugin :
      PluginLoader → Plugin → List (String × String) → PluginLoader × List (String × String)
  unfolding call
  close_plugin l p errs = elim p.is_closer [
    | false ↦ (l, errs)
    | true ↦
        let (l', e) = call l (close_call p) in
        (l', elim e [ some x ↦ errs ++ (p.name, x) ∷ [] | none ↦ errs ])
  ]

  unfoldable pub close_all :
      PluginLoader → List Plugin → List (String × String) → PluginLoader × List (String × String)
  unfolding close_plugin
  close_all l [] errs = (l, errs)
  close_all l (p ∷ ps) errs = let (l', errs') = close_plugin l p errs in close_all l' ps errs'

  -- `Close`
  unfoldable pub close : PluginLoader → PluginLoader × Option LoaderError
  unfolding is_over closed_with
  close l =
      if is_over l.state
      then (l, none)
      else let (l', errs) = close_all (record l { state = closing; running = [] }) l.running [] in
        closed_with l' errs

  -- A plugin is started by one of its two interfaces: `loader.Close` on an error, or one more
  -- plugin that runs.
  unfoldable pub start_by : PluginLoader → Plugin → Call → PluginLoader × Option LoaderError
  unfolding call
  start_by l p c =
      let (l', e) = call l c in
      elim e [
        | some x ↦ ((close l').0, some (plugin_failed x))
        | none ↦ (record l' { running = l'.running ++ p ∷ [] }, none)
      ]

  unfoldable pub start_calls : PluginLoader → Plugin → List Call → PluginLoader × Option LoaderError
  start_calls l p [] = (l, none)
  start_calls l p (c ∷ cs) =
      let (l', e) = start_by l p c in elim e [ some x ↦ (l', some x) | none ↦ start_calls l' p cs ]

  -- the loop of `Start`
  unfoldable pub start_all : PluginLoader → List Plugin → PluginLoader × Option LoaderError
  start_all l [] = (l, none)
  start_all l (p ∷ ps) =
      let (l', e) = start_calls l p (starts p) in
      elim e [ some x ↦ (l', some x) | none ↦ start_all l' ps ]

  -- `Start`, by the error of `NewCoreAPI`
  unfoldable pub start : Option String → PluginLoader → PluginLoader × Option LoaderError
  start new_core_api l =
      let (l1, e1) = transition l injected starting in
      elim e1 [
        | some x ↦ (l1, some x)
        | none ↦ elim new_core_api [
          | some x ↦ (l1, some (api_failed x))
          | none ↦
              let (l2, e2) = start_all l1 l1.plugins in
              elim e2 [ some x ↦ (l2, some x) | none ↦ transition l2 starting started ]
        ]
      ]
