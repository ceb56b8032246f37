-- ===== src/Plugins/Starting.antt =====
-- kubo-master/plugin/loader/loader.go: `Start` starts every plugin, or closes what it has started.
use bock_ipfs.Base.{
  if◌then◌else◌, Option-cases, String, ◌≡◌, refl, ◌⊎◌, inl, inr, Option, none, some, List, [], ◌∷◌,
  ◌++◌, append-nil, append_assoc, arith,
}
use bock_ipfs.Plugins.Loader.{
  injected, starting, started, Plugin, Call, start_daemon, start_internal, LoaderError,
  plugin_failed, PluginLoader, Respond, transition,
}
use bock_ipfs.Plugins.Stages.{transition_from}
use bock_ipfs.Plugins.Running.{starts, close, start_by, start_calls, start_all, start}

-- a plugin and a call that starts it
abbrev pub Launch : Type 0
Launch = Plugin × Call

abbrev launches_by : Plugin → List Call → List Launch
launches_by p [] = []
launches_by p (c ∷ cs) = (p, c) ∷ launches_by p cs

-- The launches of a list of plugins, in order: each plugin as a `PluginDaemon`, if it is one, and then
-- as a `PluginDaemonInternal`, if it is one.
unfoldable pub launches : List Plugin → List Launch
launches [] = []
launches (p ∷ ps) =
    let rest = launches ps in
    let internal = if p.is_daemon_internal then (p, start_internal p) ∷ rest else rest in
    if p.is_daemon then (p, start_daemon p) ∷ internal else internal

launches-starts :
    (p : Plugin) (ps : List Plugin) → launches (p ∷ ps) ≡ launches_by p (starts p) ++ launches ps
unfolding launches starts
launches-starts p ps = ground arith

abbrev pub launched : List Launch → List Plugin
launched [] = []
launched ((p, c) ∷ ls) = p ∷ launched ls

-- the calls of the launches, the last one first, behind what was called before
abbrev pub launchings : List Launch → List Call → List Call
launchings [] cs = cs
launchings ((p, c) ∷ ls) cs = launchings ls (c ∷ cs)

-- How the launches of a loader may end.
pub data Launched (respond : Respond) (l : PluginLoader) (items : List Launch)
    (r : PluginLoader × Option LoaderError) : Type 0 where
  all_started :
      r ≡ (
        record l { running = l.running ++ launched items; calls = launchings items l.calls },
        none,
      )
      → Launched respond l items r
  stopped_at :
      (begun : List Launch) (p : Plugin) (c : Call) (rest : List Launch) (x : String)
      → items ≡ begun ++ (p, c) ∷ rest
      → respond (launchings begun l.calls) c ≡ some x
      → r ≡ (
        (close respond (record l {
          running = l.running ++ launched begun;
          calls = c ∷ launchings begun l.calls;
        })).0,
        some (plugin_failed x),
      )
      → Launched respond l items r

-- What `Start` may come to, without what was started before it.
abbrev pub Started : Respond → PluginLoader → PluginLoader × Option LoaderError → Type 0
Started respond l (l', e) =
    ((e ≡ none)
      × (l'.state ≡ started)
      × (l'.running ≡ launched (launches l.plugins))
      × (l'.calls ≡ launchings (launches l.plugins) l.calls))
    ⊎ ((begun : List Launch) × (p : Plugin) × (c : Call) × (rest : List Launch) × (x : String)
        × (launches l.plugins ≡ begun ++ (p, c) ∷ rest)
        × (respond (launchings begun l.calls) c ≡ some x)
        × (e ≡ some (plugin_failed x))
        × (l'
            ≡ (close respond (record l {
              state = starting;
              running = launched begun;
              calls = c ∷ launchings begun l.calls;
            })).0))

module _ (respond : Respond) where
  start_each : PluginLoader → List Launch → PluginLoader × Option LoaderError
  start_each l [] = (l, none)
  start_each l ((p, c) ∷ ls) =
      let (l', e) = start_by respond l p c in
      elim e [ some x ↦ (l', some x) | none ↦ start_each l' ls ]

  start_calls-start_each :
      (l : PluginLoader) (p : Plugin) (cs : List Call) (ls : List Launch)
      → start_each l (launches_by p cs ++ ls) ≡ (
          let (l', e) = start_calls respond l p cs in
          elim e as (λ x. PluginLoader × Option LoaderError) [
            | some x ↦ (l', some x)
            | none ↦ start_each l' ls
          ])
  unfolding start_each start_calls
  start_calls-start_each l p [] ls = refl
  start_calls-start_each l p (c ∷ cs) ls =
      let (l', e) = start_by respond l p c in ground (arith, start_calls-start_each l' p cs ls)

  start_all-start_each :
      (l : PluginLoader) (ps : List Plugin) → start_all respond l ps ≡ start_each l (launches ps)
  unfolding start_each start_all launches
  start_all-start_each l [] = refl
  start_all-start_each l (p ∷ ps) =
      let (l', e) = start_calls respond l p (starts p) in
      rw (launches-starts p ps) (
        ground
          (arith, start_calls-start_each l p (starts p) (launches ps), start_all-start_each l' ps))

  abbrev running_with : PluginLoader → Plugin → Call → PluginLoader
  running_with l p c = record l { running = l.running ++ p ∷ []; calls = c ∷ l.calls }

  Launched-cons :
      (l : PluginLoader) (p : Plugin) (c : Call) (ls : List Launch)
      (r : PluginLoader × Option LoaderError)
      → respond l.calls c ≡ none
      → Launched respond (running_with l p c) ls r
      → Launched respond l ((p, c) ∷ ls) r
  Launched-cons l p c ls r fine (all_started e) =
      all_started (ground (arith, e, append_assoc l.running (p ∷ []) (launched ls)))
  Launched-cons l p c ls r fine (stopped_at begun q d rest x at failing e) =
      stopped_at ((p, c) ∷ begun) q d rest x (cc) failing
        (ground (arith, e, append_assoc l.running (p ∷ []) (launched begun)))

  start_each-Launched :
      (l : PluginLoader) (items : List Launch) → Launched respond l items (start_each l items)
  unfolding start_each start_by
  start_each-Launched l [] = all_started (ground (arith, append-nil l.running))
  start_each-Launched l ((p, c) ∷ ls) = elim (Option-cases (respond l.calls c)) [
    | inl fine ↦
        let step : start_each l ((p, c) ∷ ls) ≡ start_each (running_with l p c) ls = ground arith in
        rw step (Launched-cons l p c ls _ fine (start_each-Launched (running_with l p c) ls))
    | inr (x, failing) ↦ stopped_at [] p c ls x refl failing (ground (arith, append-nil l.running))
  ]

  abbrev finish_start : PluginLoader × Option LoaderError → PluginLoader × Option LoaderError
  finish_start (l, some x) = (l, some x)
  finish_start (l, none) = transition l starting started

  start_finish :
      (l : PluginLoader)
      → l.state ≡ injected
      → start respond none l
        ≡ finish_start (start_all respond (record l { state = starting }) l.plugins)
  unfolding start
  start_finish l at = let moved = transition_from l injected starting at in ground (arith, moved)

  finish_start-Started :
      (l : PluginLoader) (r : PluginLoader × Option LoaderError)
      → l.running ≡ []
      → Launched respond (record l { state = starting }) (launches l.plugins) r
      → Started respond l (finish_start r)
  finish_start-Started l r idle (all_started e) =
      inl (ground (arith, e, idle, transition_from r.0 starting started))
  finish_start-Started l r idle (stopped_at begun p c rest x at failing e) =
      inr (begun, p, c, rest, x, at, failing, rw e refl, ground (arith, e, idle))

  -- `Start` of an injected loader with nothing started, whose core API can be made, calls the `Start`
  -- of every plugin that is a `PluginDaemon` and then, if it is a `PluginDaemonInternal`, its `Start`
  -- with the node, in the order of loading. Either all succeed, and the loader is started and lists
  -- them all; or one fails, and then its error is returned, the plugins behind it are not called,
  -- and the loader is closed (by `Close`) with exactly the plugins before it started.
  pub start_lem :
      (l : PluginLoader)
      → l.state ≡ injected
      → l.running ≡ []
      → Started respond l (start respond none l)
  start_lem l at idle =
      let l' : PluginLoader = record l { state = starting } in
      rw (start_finish l at) (
        finish_start-Started l (start_all respond l' l.plugins) idle
          (rw (start_all-start_each l' l.plugins) (start_each-Launched l' (launches l.plugins))))
