-- ===== src/Context/Screen/Steps.antt =====
-- The service and the screen together: the threads of SmartContext and of the UI, with their queues,
-- and the life of EntryActivity and WifiRuleActivity.
use mathlib.Core.List.{◌++◌ as ◌+++◌}
use sctx.Context.Engine.Names.{has_name, distinct_names}
use sctx.Context.Engine.{Engine}
use sctx.Context.Screen.{
  EntryActivity, WifiRuleActivity, StringObject, Screen, Task, notice, reset, run_task, reset_ui,
}
use sctx.Context.Screen.Tags.{IsLabelled}
use sctx.Context.Smart.{SmartContext, get_native_context, put_native_context}
use sctx.Context.Wifi.{WifiContext, ScanResult, add_rule, remove_rules, set_wifi_scan_result}
use sctx.Prelude.Options.{is_some}
use sctx.Prelude.{ℕ, String, ◌≡◌, Bool, true, false, Option, none, some, List, [], ◌∷◌, ◌&&◌}

-- `service` keeps no notices: they are tasks in `ui_queue`, the queue of the UI thread. `resets` are
-- the calls of resetUI that wait for the thread of the service. `ui_handler` says whether a handler of
-- the UI thread is registered, which an activity does when it is made and nothing undoes.
pub record App : Type 0 where
  pub wifi : WifiContext
  pub service : SmartContext
  pub screen : Screen
  pub ui_queue : List Task
  pub resets : List (Option StringObject)
  pub ui_handler : Bool

abbrev pub quiet : SmartContext → SmartContext
quiet s = record s { notices = [] }

unfoldable pub tasks_of : List (String × Bool) → List Task
tasks_of [] = []
tasks_of ((n, v) ∷ ns) = notice n v ∷ tasks_of ns

-- Util.runInUIThread, which drops a task where no handler is registered.
unfoldable pub sent : Bool → List Task → List Task
sent true ts = ts
sent false ts = []

-- The state after the service worked and came to `w` and `s`.
abbrev pub worked : App → WifiContext → SmartContext → App
worked a w s = record a {
  wifi = w;
  service = quiet s;
  ui_queue = a.ui_queue +++ sent a.ui_handler (tasks_of s.notices);
}

abbrev pub with_activity : App → Option EntryActivity → App
with_activity a o = record a { screen = record a.screen { ea = o } }

abbrev pub with_rules : App → Option WifiRuleActivity → App
with_rules a o = record a { screen = record a.screen { wra = o } }

-- A new EntryActivity: what onCreate makes of it.
abbrev pub new_activity : ℕ → (ℕ → String) → EntryActivity
new_activity next text = record {
  is_resumed = false;
  context_views = λ n. none;
  context_view_container = [];
  tag_text = text;
  next_tag = next;
  wifi_symbols_container = [];
}

abbrev pub with_reset : App → List String → Option StringObject → App
with_reset a keys name = record a {
  ui_queue =
      a.ui_queue +++ sent a.ui_handler (reset (reset_ui keys name a.wifi a.service.eng) ∷ []);
}

-- The keys of the engine's symbols, none twice.
pub record IsKeySet (keys : List String) (e : Engine) : Type 0 where
  pub all : (n : String) → has_name keys n ≡ is_some (e.values n)
  pub once : distinct_names keys ≡ true

-- No call of resetUI that is a task lists a name twice.
unfoldable pub all_once : List Task → Bool
all_once [] = true
all_once (notice n v ∷ ts) = all_once ts
all_once (reset r ∷ ts) = distinct_names r.ctx_list && all_once ts

-- `null_context` is that of `run_task`.
module _ (null_context : Bool) where
  pub data Step (a : App) : App → Type 0 where
    taken :
        (name : String) (s : SmartContext)
        → get_native_context name (quiet a.service) ≡ some s
        → Step a (worked a a.wifi s)
    given_back :
        (name : String) (s : SmartContext)
        → put_native_context name (quiet a.service) ≡ some s
        → Step a (worked a a.wifi s)
    scanned :
        (result : List ScanResult) (w : WifiContext) (s : SmartContext)
        → set_wifi_scan_result result a.wifi (quiet a.service) ≡ some (w, s)
        → Step a (worked a w s)
    -- The button of WifiRuleActivity that adds a rule object `i`.
    rule_added :
        (i : ℕ) (name : StringObject) (keys : List String)
        → IsKeySet keys a.service.eng
        → Step a (with_reset (record a { wifi = add_rule i a.wifi }) keys (some name))
    -- The buttons that delete rules.
    rules_removed :
        (symbol ssid : Option String) (name : Option StringObject) (w : WifiContext)
        (keys : List String)
        → remove_rules symbol ssid a.wifi ≡ some w
        → IsKeySet keys a.service.eng
        → Step a (with_reset (record a { wifi = w }) keys name)
    -- A call of resetUI that an activity asked for.
    reset_called :
        (name : Option StringObject) (rest : List (Option StringObject)) (keys : List String)
        → a.resets ≡ name ∷ rest
        → IsKeySet keys a.service.eng
        → Step a (with_reset (record a { resets = rest }) keys name)
    -- The UI thread runs its next task.
    task_run :
        (t : Task) (rest : List Task)
        → a.ui_queue ≡ t ∷ rest
        → Step a (record a { screen = run_task null_context t a.screen; ui_queue = rest })
    -- onCreate, onResume, onPause and onDestroy of EntryActivity.
    created :
        (next : ℕ) (text : ℕ → String)
        → a.screen.ea ≡ none
        → Step a (record (with_activity a (some (new_activity next text))) { ui_handler = true })
    resumed :
        (e : EntryActivity)
        → a.screen.ea ≡ some e
        → Step a (record (with_activity a (some (record e { is_resumed = true }))) {
          resets = a.resets +++ (none ∷ []);
        })
    paused :
        (e : EntryActivity)
        → a.screen.ea ≡ some e
        → Step a (with_activity a (some (record e { is_resumed = false })))
    destroyed : Step a (with_activity a none)
    -- The same of WifiRuleActivity.
    rules_created :
        (b : WifiRuleActivity)
        → a.screen.wra ≡ none
        → b.is_resumed ≡ false
        → Step a (record (with_rules a (some b)) { ui_handler = true })
    rules_resumed :
        (b : WifiRuleActivity)
        → a.screen.wra ≡ some b
        → Step a (record (with_rules a (some (record b { is_resumed = true }))) {
          resets = a.resets +++ (some b.symbol_name ∷ []);
        })
    rules_paused :
        (b : WifiRuleActivity)
        → a.screen.wra ≡ some b
        → Step a (with_rules a (some (record b { is_resumed = false })))
    rules_destroyed : Step a (with_rules a none)

  -- onCreate of the service ends with a call of resetUI, after any tasks that were posted before;
  -- an EntryActivity that is there already has registered its handler.
  pub data Reached : App → Type 0 where
    started :
        (a : App) (keys : List String)
        → IsLabelled a.screen.ea
        → (is_some a.screen.ea ≡ true → a.ui_handler ≡ true)
        → all_once a.ui_queue ≡ true
        → IsKeySet keys a.service.eng
        → Reached (with_reset a keys none)
    stepped : {a b : App} → Reached a → Step a b → Reached b
