-- ===== src/Plugins/Stages.antt =====
-- kubo-master/plugin/loader/loader.go: `Initialize`, `Inject` and `Start` keep the phases in order.
use bock_ipfs.Base.{
  ◌==◌, Bool-cases, string_eq, All, ◌≤◌, String, ◌≡◌, ◌⊎◌, inl, inr, Option, none, some, List, [],
  ◌∷◌, arith,
}
use bock_ipfs.Plugins.Loader.{
  LoaderState, loading, initializing, initialized, injecting, injected, starting, started,
  state_name, position, Plugin, config_of, Call, init_call, LoaderError, wrong_state, api_failed,
  PluginLoader, Respond, assert_state, transition,
}
use bock_ipfs.Plugins.Running.{
  injections, starts, init_all, initialize, inject_calls, inject_all, inject, start_by, start_calls,
  start_all, start,
}
use bock_ipfs.Plugins.Phases.{phase, reached, IsPhased-le, with_call, IsOrdered, close-IsOrdered}

transition_cases :
    (l : PluginLoader) (from to : LoaderState)
    → ((transition l from to ≡ (record l { state = to }, none))
        × (position l.state ≡ position from))
      ⊎ ((e : LoaderError) × (transition l from to ≡ (l, some e)))
unfolding transition assert_state
transition_cases l from to = elim (Bool-cases (position l.state == position from)) [
  | inl same ↦ inl (ground arith, ground arith)
  | inr other ↦ inr (wrong_state (state_name from) (state_name l.state), ground arith)
]

pub transition_from :
    (l : PluginLoader) (from to : LoaderState)
    → l.state ≡ from
    → transition l from to ≡ (record l { state = to }, none)
unfolding transition assert_state
transition_from l from to e = ground arith

-- `Initialize`, `Inject` and `Start`: a transition, a loop over the plugins, a transition.
abbrev stage_end :
    LoaderState
    → LoaderState
    → PluginLoader × Option LoaderError
    → PluginLoader × Option LoaderError
stage_end mid to (l, some e) = (l, some e)
stage_end mid to (l, none) = transition l mid to

abbrev stage_loop :
    LoaderState
    → LoaderState
    → (PluginLoader → PluginLoader × Option LoaderError)
    → PluginLoader × Option LoaderError
    → PluginLoader × Option LoaderError
stage_loop mid to loop (l, some e) = (l, some e)
stage_loop mid to loop (l, none) = stage_end mid to (loop l)

-- What the loop of a stage owes: sound after an error, and else ready for the next state.
abbrev Ready : LoaderState → LoaderState → PluginLoader × Option LoaderError → Type 0
Ready mid to (l, some e) = IsOrdered l
Ready mid to (l, none) = (l.state ≡ mid) × IsOrdered (record l { state = to })

stage_end-IsOrdered :
    (mid to : LoaderState) (r : PluginLoader × Option LoaderError)
    → Ready mid to r
    → IsOrdered (stage_end mid to r).0
stage_end-IsOrdered mid to (l, some e) h = h
stage_end-IsOrdered mid to (l, none) h = rw (transition_from l mid to h.0) h.1

stage-IsOrdered :
    (from mid to : LoaderState) (loop : PluginLoader → PluginLoader × Option LoaderError)
    (l : PluginLoader)
    → (position l.state ≡ position from → Ready mid to (loop (record l { state = mid })))
    → IsOrdered l
    → IsOrdered (stage_loop mid to loop (transition l from mid)).0
stage-IsOrdered from mid to loop l runs o = elim (transition_cases l from mid) [
  | inr (e, refused) ↦ rw refused o
  | inl (moved, at) ↦
      rw moved (stage_end-IsOrdered mid to (loop (record l { state = mid })) (runs at))
]

injections-one : (p : Plugin) → All (λ c. phase c ≡ 1) (injections p)
unfolding injections
injections-one p = ground arith

starts-two : (p : Plugin) → All (λ c. phase c ≡ 2) (starts p)
unfolding starts
starts-two p = ground arith

module _ (respond : Respond) where
  init_all-Ready :
      (l : PluginLoader) (ps : List Plugin)
      → Ready initializing initialized (l, none)
      → Ready initializing initialized (init_all respond l ps)
  unfolding init_all
  init_all-Ready l [] h = h
  init_all-Ready l (p ∷ ps) h =
      let c = init_call p l.repo (config_of l.config p.name).config in
      ground (arith, init_all-Ready (with_call l c) ps)

  pub initialize-IsOrdered : (l : PluginLoader) → IsOrdered l → IsOrdered (initialize respond l).0
  unfolding initialize
  initialize-IsOrdered l o =
      let l' : PluginLoader = record l { state = initializing } in
      let r =
        stage-IsOrdered loading initializing initialized
          (λ (l1 : PluginLoader). init_all respond l1 l1.plugins) l
          (λ (at : position l.state ≡ 0). init_all-Ready l' l'.plugins (ground arith)) o in
      ground (arith, r)

  inject_calls-Ready :
      (l : PluginLoader) (cs : List Call)
      → All (λ c. phase c ≡ 1) cs
      → Ready injecting injected (l, none)
      → Ready injecting injected (inject_calls respond l cs)
  unfolding inject_calls
  inject_calls-Ready l [] one h = h
  inject_calls-Ready l (c ∷ cs) one h = ground (arith, inject_calls-Ready (with_call l c) cs)

  inject_all-Ready :
      (l : PluginLoader) (ps : List Plugin)
      → Ready injecting injected (l, none)
      → Ready injecting injected (inject_all respond l ps)
  unfolding inject_all
  inject_all-Ready l [] h = h
  inject_all-Ready l (p ∷ ps) h =
      let (l', e) = inject_calls respond l (injections p) in
      ground
        (arith, inject_calls-Ready l (injections p) (injections-one p) h, inject_all-Ready l' ps)

  pub inject-IsOrdered : (l : PluginLoader) → IsOrdered l → IsOrdered (inject respond l).0
  unfolding inject
  inject-IsOrdered l o =
      let l' : PluginLoader = record l { state = injecting } in
      let r =
        stage-IsOrdered initialized injecting injected
          (λ (l1 : PluginLoader). inject_all respond l1 l1.plugins) l
          (λ (at : position l.state ≡ 2).
            let le : reached l.state ≤ 1 = ground arith in
            inject_all-Ready l' l'.plugins (ground (arith, IsPhased-le l.calls le o.phased)))
          o in
      ground (arith, r)

  start_by-Ready :
      (l : PluginLoader) (p : Plugin) (c : Call)
      → phase c ≡ 2
      → Ready starting started (l, none)
      → Ready starting started (start_by respond l p c)
  unfolding start_by
  start_by-Ready l p c two h =
      let called : IsOrdered (with_call l c) = ground arith in
      ground (arith, close-IsOrdered respond (with_call l c) called)

  start_calls-Ready :
      (l : PluginLoader) (p : Plugin) (cs : List Call)
      → All (λ c. phase c ≡ 2) cs
      → Ready starting started (l, none)
      → Ready starting started (start_calls respond l p cs)
  unfolding start_calls
  start_calls-Ready l p [] two h = h
  start_calls-Ready l p (c ∷ cs) two h =
      let (l', e) = start_by respond l p c in
      ground (arith, start_by-Ready l p c two.0 h, start_calls-Ready l' p cs two.1)

  start_all-Ready :
      (l : PluginLoader) (ps : List Plugin)
      → Ready starting started (l, none)
      → Ready starting started (start_all respond l ps)
  unfolding start_all
  start_all-Ready l [] h = h
  start_all-Ready l (p ∷ ps) h =
      let (l', e) = start_calls respond l p (starts p) in
      ground (arith, start_calls-Ready l p (starts p) (starts-two p) h, start_all-Ready l' ps)

  pub start-IsOrdered :
      (new_core_api : Option String) (l : PluginLoader)
      → IsOrdered l
      → IsOrdered (start respond new_core_api l).0
  unfolding start
  start-IsOrdered (some x) l o =
      let r =
        stage-IsOrdered injected starting started (λ (l1 : PluginLoader). (l1, some (api_failed x)))
          l
          (λ (at : position l.state ≡ 4).
            let le : reached l.state ≤ 2 = ground arith in
            ground (arith, IsPhased-le l.calls le o.phased))
          o in
      ground (arith, r)
  start-IsOrdered none l o =
      let l' : PluginLoader = record l { state = starting } in
      let r =
        stage-IsOrdered injected starting started
          (λ (l1 : PluginLoader). start_all respond l1 l1.plugins) l
          (λ (at : position l.state ≡ 4).
            let le : reached l.state ≤ 2 = ground arith in
            start_all-Ready l' l'.plugins (ground (arith, IsPhased-le l.calls le o.phased)))
          o in
      ground (arith, r)
