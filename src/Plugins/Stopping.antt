-- ===== src/Plugins/Stopping.antt =====
-- kubo-master/plugin/loader/loader.go: `Close` closes what was started, once, and `Start` that
-- fails on a plugin closes what it had started.
use bock_ipfs.Base.{
  if◌then◌else◌, Bool-cases, Option-cases, String, ◌≡◌, refl, ◌≢◌, ◌⊎◌, inl, inr, true, false, none,
  some, List, [], ◌∷◌, ◌++◌, append-nil, append_assoc, arith,
}
use bock_ipfs.Plugins.Loader.{
  LoaderState, loading, initializing, initialized, injecting, injected, starting, started, closing,
  closed, failed, Plugin, Call, close_call, closing_failed, PluginLoader, Respond,
}
use bock_ipfs.Plugins.Phases.{with_call}
use bock_ipfs.Plugins.Running.{closed_with, is_over, close_plugin, close_all, close}

-- the plugins of a list that can be closed
abbrev pub closers : List Plugin → List Plugin
closers [] = []
closers (p ∷ ps) = if p.is_closer then p ∷ closers ps else closers ps

-- the calls that close them, the last one first, behind what was called before
abbrev pub closings : List Plugin → List Call → List Call
closings [] cs = cs
closings (p ∷ ps) cs = closings ps (close_call p ∷ cs)

-- the plugins that answer a closing with an error, with the error
abbrev pub complaints : Respond → List Plugin → List Call → List (String × String)
complaints respond [] cs = []
complaints respond (p ∷ ps) cs =
    let rest = complaints respond ps (close_call p ∷ cs) in
    elim (respond cs (close_call p)) [ some x ↦ (p.name, x) ∷ rest | none ↦ rest ]

module _ (respond : Respond) where
  close_all_lem :
      (l : PluginLoader) (ps : List Plugin) (errs : List (String × String))
      → (close_all respond l ps errs) ≡ (
        record l { calls = closings (closers ps) l.calls },
        errs ++ complaints respond (closers ps) l.calls,
      )
  unfolding close_all close_plugin
  close_all_lem l [] errs = ground (arith, append-nil errs)
  close_all_lem l (p ∷ ps) errs = elim (Bool-cases p.is_closer) [
    | inr silent ↦ ground (arith, close_all_lem l ps errs)
    | inl closer ↦ elim (Option-cases (respond l.calls (close_call p))) [
      | inl fine ↦ ground (arith, close_all_lem (with_call l (close_call p)) ps errs)
      | inr (x, complaint) ↦ ground (
        arith,
        close_all_lem (with_call l (close_call p)) ps (errs ++ (p.name, x) ∷ []),
        append_assoc errs ((p.name, x) ∷ [])
            (complaints respond (closers ps) (close_call p ∷ l.calls)),
      )
    ]
  ]

  close_over : (l : PluginLoader) → is_over l.state ≡ true → close respond l ≡ (l, none)
  unfolding close
  close_over l over = ground arith

  close_running :
      (l : PluginLoader)
      → is_over l.state ≡ false
      → close respond l
        ≡ closed_with
            (record l {
              state = closing;
              running = [];
              calls = closings (closers l.running) l.calls;
            })
            (complaints respond (closers l.running) l.calls)
  unfolding close
  close_running l more =
      ground (arith, close_all_lem (record l { state = closing; running = [] }) l.running [])

  closed_with_lem :
      (l : PluginLoader) (errs : List (String × String))
      → l.running ≡ []
      → let (l', e) = closed_with l errs in
        (l'.calls ≡ l.calls)
        × (l'.running ≡ [])
        × (errs ≡ [] → (l'.state ≡ closed) × (e ≡ none))
        × (errs ≢ [] → (l'.state ≡ failed) × (e ≡ some (closing_failed errs)))
        × (close respond l' ≡ (l', none))
  unfolding closed_with is_over
  closed_with_lem l [] idle = (
    refl,
    idle,
    λ e. (refl, refl),
    λ ne. absurd (ne refl),
    close_over (record l { state = closed }) refl,
  )
  closed_with_lem l (x ∷ errs) idle =
      (refl, idle, λ e. cc, λ ne. (refl, refl), close_over (record l { state = failed }) refl)

  over : (s : LoaderState) → (s ≡ closing) ⊎ (s ≡ failed) ⊎ (s ≡ closed) → is_over s ≡ true
  unfolding is_over
  over s (inl h) = rw h refl
  over s (inr (inl h)) = rw h refl
  over s (inr (inr h)) = rw h refl

  not_over : (s : LoaderState) → s ≢ closing → s ≢ failed → s ≢ closed → is_over s ≡ false
  unfolding is_over
  not_over loading a b c = refl
  not_over initializing a b c = refl
  not_over initialized a b c = refl
  not_over injecting a b c = refl
  not_over injected a b c = refl
  not_over starting a b c = refl
  not_over started a b c = refl
  not_over closing a b c = absurd (a refl)
  not_over closed a b c = absurd (c refl)
  not_over failed a b c = absurd (b refl)

  -- `Close` on a loader that is closed, closing or failed changes nothing. Any other loader calls
  -- `Close` once of each started plugin that can be closed, in the order in which they were
  -- started, goes on after errors, then has none started and is closed, or failed with exactly the
  -- errors that came, with the names of their plugins; and closing it again changes nothing.
  pub close_stops :
      (l : PluginLoader)
      → ((l.state ≡ closing) ⊎ (l.state ≡ failed) ⊎ (l.state ≡ closed)
          → close respond l ≡ (l, none))
        × (l.state ≢ closing
            → l.state ≢ failed
            → l.state ≢ closed
            → let (l', e) = close respond l in
              (l'.calls ≡ closings (closers l.running) l.calls)
              × (l'.running ≡ [])
              × (complaints respond (closers l.running) l.calls ≡ []
                  → (l'.state ≡ closed) × (e ≡ none))
              × (complaints respond (closers l.running) l.calls ≢ []
                  → (l'.state ≡ failed)
                    × (e ≡ some (closing_failed (complaints respond (closers l.running) l.calls))))
              × (close respond l' ≡ (l', none)))
  close_stops l = (
    λ ended. close_over l (over l.state ended),
    λ a b c. rw (close_running l (not_over l.state a b c)) (
        closed_with_lem
          (record l { state = closing; running = []; calls = closings (closers l.running) l.calls })
          (complaints respond (closers l.running) l.calls) refl),
  )
