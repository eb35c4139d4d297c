-- ===== src/Context/Screen/CatchingUp.antt =====
-- The threads of the service and of the UI by themselves: they run what waits for them until nothing
-- is left.
use sctx.Context.Engine.{Engine, value_of}
use sctx.Context.Wifi.{WifiContext}
use sctx.Context.Screen.{StringObject, Task, reset, run_task, run_tasks, reset_ui}
use sctx.Context.Screen.Copies.{one_if, copies, extra, surplus}
use sctx.Context.Screen.Shown.{shown_in, resumed_in}
use sctx.Context.Screen.Steps.{
  App, sent, with_reset, IsKeySet, reset_called, task_run, Reached, stepped,
}
use sctx.Context.Screen.Synced.{Reached-visible}
use sctx.Context.Screen.Tags.{visible_in}
use sctx.Prelude.{String, ◌≡◌, refl, Bool, true, Option, List, [], ◌∷◌, ◌∙◌, ◌+◌, ap, sym, subst}
use mathlib.Core.List.{◌++◌ as ◌+++◌, append_assoc, append-nil}

-- What the calls of resetUI that wait post to the UI thread.
unfoldable pub reset_tasks :
    List String → Bool → WifiContext → Engine → List (Option StringObject) → List Task
unfolding sent
reset_tasks keys handler w e [] = []
reset_tasks keys handler w e (name ∷ names) =
    sent handler (reset (reset_ui keys name w e) ∷ []) +++ reset_tasks keys handler w e names

module _ (c : Bool) where
  -- Only calls of resetUI that wait and tasks that wait are run.
  pub data Runs (a : App) : App → Type 0 where
    here : Runs a a
    then_call :
        {b : App} (name : Option StringObject) (rest : List (Option StringObject))
        (keys : List String)
        → Runs a b
        → b.resets ≡ name ∷ rest
        → IsKeySet keys b.service.eng
        → Runs a (with_reset (record b { resets = rest }) keys name)
    then_task :
        {b : App} (t : Task) (rest : List Task)
        → Runs a b
        → b.ui_queue ≡ t ∷ rest
        → Runs a (record b { screen = run_task c t b.screen; ui_queue = rest })

  Runs-Reached : {a b : App} → Reached c a → Runs a b → Reached c b
  Runs-Reached r here = r
  Runs-Reached r (then_call name rest keys s e all) =
      stepped (Runs-Reached r s) (reset_called name rest keys e all)
  Runs-Reached r (then_task t rest s e) = stepped (Runs-Reached r s) (task_run t rest e)

  module _ (a : App) where
    abbrev emptied : App → List Task → App
    emptied b ts = record b { screen = run_tasks c ts b.screen; ui_queue = [] }

    -- The UI thread does all its tasks.
    Runs-tasks : (ts : List Task) (b : App) → Runs a b → b.ui_queue ≡ ts → Runs a (emptied b ts)
    unfolding run_tasks
    Runs-tasks [] b r e = subst (λ q. Runs a (record b { ui_queue = q })) e r
    Runs-tasks (t ∷ ts) b r e =
        Runs-tasks ts (record b { screen = run_task c t b.screen; ui_queue = ts })
          (then_task t ts r e) refl

    -- The service's thread makes all the calls of resetUI.
    Runs-calls :
        (names : List (Option StringObject)) (keys : List String) (b : App)
        → Runs a b
        → b.resets ≡ names
        → IsKeySet keys b.service.eng
        → (d : App) × Runs a d
          × (d.resets ≡ [])
          × (d.service ≡ b.service)
          × (d.screen ≡ b.screen)
          × (d.ui_queue ≡ b.ui_queue +++ reset_tasks keys b.ui_handler b.wifi b.service.eng names)
    unfolding reset_tasks
    Runs-calls [] keys b r e all = (b, r, e, refl, refl, sym (append-nil b.ui_queue))
    Runs-calls (name ∷ names) keys b r e all =
        let next : App = with_reset (record b { resets = names }) keys name in
        let (d, runs, idle, service, screen, queue) =
          Runs-calls names keys next (then_call name names keys r e all) refl all in
        (
          d,
          runs,
          idle,
          service,
          screen,
          queue
              ∙ append_assoc b.ui_queue
                  (sent b.ui_handler (reset (reset_ui keys name b.wifi b.service.eng) ∷ []))
                  (reset_tasks keys b.ui_handler b.wifi b.service.eng names),
        )

    -- With the keys of the engine: from every state that is reached with EntryActivity
    -- resumed, the two threads by themselves come to a state in which nothing waits, the service is as
    -- it was, and a name has its tag in the map and in the container exactly when it is true in the
    -- engine; the container has one tag of a true name and none of another, besides the surplus of
    -- the tasks that waited and of those of the calls that waited.
    pub Reached-catches_up :
        (keys : List String)
        → IsKeySet keys a.service.eng
        → Reached c a
        → resumed_in a.screen.ea ≡ true
        → (b : App) × Runs a b
          × (b.ui_queue ≡ [])
          × (b.resets ≡ [])
          × (b.service ≡ a.service)
          × ((n : String)
              → (visible_in b.screen.ea n ≡ value_of a.service.eng n)
                × (copies b.screen.ea n
                    ≡ one_if (value_of a.service.eng n)
                      + surplus
                          (a.ui_queue
                            +++ reset_tasks keys a.ui_handler a.wifi a.service.eng a.resets)
                          (shown_in a.screen.ea)
                          n
                          (extra a.screen.ea n)))
    Reached-catches_up keys all r live =
        let (d, runs, idle, service, screen, queue) = Runs-calls a.resets keys a here refl all in
        (
          emptied d d.ui_queue,
          Runs-tasks d.ui_queue d runs refl,
          refl,
          idle,
          service,
          λ n.
              let (shows, counts) =
                Reached-visible c d n (Runs-Reached r runs)
                  (ap (λ s. resumed_in s.ea) screen ∙ live) idle in
              (
                shows ∙ ap (λ s. value_of s.eng n) service,
                counts
                    ∙ (ap
                          (λ s.
                            one_if (value_of s.eng n)
                            + surplus d.ui_queue (shown_in d.screen.ea) n (extra d.screen.ea n))
                          service
                        ∙ (ap
                              (λ s.
                                one_if (value_of a.service.eng n)
                                + surplus d.ui_queue (shown_in s.ea) n (extra s.ea n))
                              screen
                            ∙ ap
                                (λ q.
                                  one_if (value_of a.service.eng n)
                                  + surplus q (shown_in a.screen.ea) n (extra a.screen.ea n))
                                queue)),
              ),
        )
