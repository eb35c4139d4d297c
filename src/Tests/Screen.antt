-- ===== src/Tests/Screen.antt =====
-- The screen over the service of Tests/Wifi, and a symbol that gets two tags.
use sctx.Context.Engine.{Engine, value_of, update_system_symbol}
use sctx.Context.Engine.Names.{has_name, distinct_names}
use sctx.Context.Engine.Parse.{init, parse, parse_lines}
use sctx.Context.Engine.Update.{enough_fuel}
use sctx.Context.Screen.{EntryActivity, Task, reset, run_tasks, reset_ui}
use sctx.Context.Screen.CatchingUp.{Runs, reset_tasks, Reached-catches_up}
use sctx.Context.Screen.Networks.{IsShown, set_wifi_scan_result-IsShown}
use sctx.Context.Screen.Copies.{one_if, copies, extra, surplus}
use sctx.Context.Screen.Shown.{shown_in, resumed_in}
use sctx.Context.Screen.Steps.{
  App, sent, all_once, quiet, tasks_of, with_reset, IsKeySet, Reached, started, stepped, created,
  resumed, reset_called, new_activity,
}
use sctx.Context.Screen.Synced.{Reached-visible}
use sctx.Context.Screen.Tags.{visible_in}
use sctx.Context.Smart.{SmartContext, set_context}
use sctx.Context.Text.{has_char}
use sctx.Context.Wifi.{set_wifi_scan_result, add_rule}
use sctx.Context.Wifi.Contexts.Steps.{no_contexts}
use sctx.Prelude.{
  ℕ, ◌+◌, String, ◌≡◌, refl, true, false, Option, none, some, List, [], ◌∷◌, arith, str_eq,
}
use sctx.Tests.Wifi.{network, engine, rules, rules-InStep}

abbrev base : App
base = record {
  wifi = rules;
  service = no_contexts engine;
  screen = record { ea = none; wra = none };
  ui_queue = [];
  resets = [];
  ui_handler = false;
}

abbrev keys : List String
keys = "n$s" ∷ []

keys-IsKeySet : IsKeySet keys engine
unfolding parse has_char has_name distinct_names
keys-IsKeySet = record { all = λ n. ground arith; once = refl }

-- The service starts, EntryActivity is created and resumed, and resetUI is called for it.
abbrev start : App
start = with_reset base keys none

abbrev text : ℕ → String
text i = ""

abbrev waiting : App
waiting = record start {
  screen = record { ea = some (record (new_activity 0 text) { is_resumed = true }); wra = none };
  resets = none ∷ [];
  ui_handler = true;
}

waiting-Reached : Reached true waiting
unfolding all_once
waiting-Reached =
    stepped
      (stepped (started base keys tt (λ there. absurd (ground (arith, there))) refl keys-IsKeySet)
        (created 0 text refl))
      (resumed (new_activity 0 text) refl)

abbrev ready : App
ready = with_reset (record waiting { resets = [] }) keys none

ready-Reached : Reached true ready
ready-Reached = stepped waiting-Reached (reset_called none [] keys refl keys-IsKeySet)

Reached-visible_example :
    (visible_in (run_tasks true ready.ui_queue ready.screen).ea "n$s" ≡ value_of engine "n$s")
    × (copies (run_tasks true ready.ui_queue ready.screen).ea "n$s"
        ≡ one_if (value_of engine "n$s")
          + surplus ready.ui_queue (shown_in ready.screen.ea) "n$s" (extra ready.screen.ea "n$s"))
unfolding resumed_in
Reached-visible_example = Reached-visible true ready "n$s" ready-Reached refl refl

-- After the task of resetUI no tag is left over.
no_surplus :
    surplus ready.ui_queue (shown_in ready.screen.ea) "n$s" (extra ready.screen.ea "n$s") ≡ 0
unfolding surplus sent reset_ui
no_surplus = refl

Reached-catches_up_example :
    (b : App) × Runs true waiting b
    × (b.ui_queue ≡ [])
    × (b.resets ≡ [])
    × (b.service ≡ waiting.service)
    × ((n : String)
        → (visible_in b.screen.ea n ≡ value_of engine n)
          × (copies b.screen.ea n
              ≡ one_if (value_of engine n)
                + surplus
                    (reset_tasks keys true rules engine (none ∷ []))
                    (shown_in waiting.screen.ea)
                    n
                    (extra waiting.screen.ea n)))
unfolding resumed_in reset_tasks sent
Reached-catches_up_example = Reached-catches_up true waiting keys keys-IsKeySet waiting-Reached refl

set_wifi_scan_result-IsShown_example :
    IsShown true ready
      (network ∷ [])
      (set_wifi_scan_result (network ∷ []) ready.wifi (quiet ready.service))
unfolding resumed_in
set_wifi_scan_result-IsShown_example =
    set_wifi_scan_result-IsShown true ready ready-Reached refl refl rules-InStep (network ∷ [])
      (omega arith)

-- A symbol that one update makes false and true again: it is told to be true while it is shown, and
-- a second tag is put beside the first.
abbrev lines : List String
lines = "a,@w" ∷ "b,@w" ∷ "s,!a,b" ∷ []

abbrev ruled : Engine
ruled = parse_lines some "n" lines init

abbrev service : SmartContext
service = no_contexts ruled

abbrev notices : Option SmartContext → List Task
notices none = []
notices (some s) = tasks_of s.notices

abbrev texts : EntryActivity → List ℕ → List String
texts a [] = []
texts a (t ∷ ts) = a.tag_text t ∷ texts a ts

abbrev container : Option EntryActivity → List String
container none = []
container (some a) = texts a a.context_view_container

abbrev shown_with : List Task → List String
shown_with ts =
    container
      (run_tasks true (reset (reset_ui ("n$a" ∷ "n$b" ∷ "n$s" ∷ []) none rules ruled) ∷ ts)
        (record waiting.screen { wra = none })).ea

shown_once : shown_with [] ≡ "n$s" ∷ []
unfolding parse_lines run_tasks reset_ui value_of has_char add_rule
shown_once = refl

shown_twice :
    shown_with (notices (set_context "@w" true service)) ≡ "n$s" ∷ "@w" ∷ "n$a" ∷ "n$b" ∷ "n$s" ∷ []
unfolding parse_lines set_context enough_fuel has_char update_system_symbol run_tasks reset_ui
    value_of add_rule tasks_of
shown_twice = refl

-- The surplus is the second tag of the name that was told again.
surplus_tag : surplus (notices (set_context "@w" true service)) (λ n. str_eq n "n$s") "n$s" 0 ≡ 1
unfolding parse_lines set_context enough_fuel has_char update_system_symbol tasks_of surplus
surplus_tag = refl
