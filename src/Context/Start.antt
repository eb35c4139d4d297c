-- ===== src/Context/Start.antt =====
-- onCreate of SmartContext: the rules of the wifi and of the symbols are read, and the UI and the Lua
-- runtime are told of what is true from the start.
pub mod Parts
pub mod Established
use mathlib.Core.List.{◌++◌ as ◌+++◌}
use sctx.Context.Engine.{Engine, includes, put, value_of}
use sctx.Context.Engine.Parse.{init}
use sctx.Context.Screen.{Screen, true_names}
use sctx.Context.Screen.Steps.{App, sent, quiet, tasks_of, with_reset, IsKeySet, Reached, started}
use sctx.Context.Screen.Tags.{IsLabelled}
use sctx.Context.Smart.{SmartContext, notify_context}
use sctx.Context.Smart.Files.{init_context_eng, all_plain, Quiet, init_context_eng-init}
use sctx.Context.Text.{has_at}
use sctx.Context.Wifi.{WifiRule, WifiContext, add_rule}
use sctx.Context.Wifi.Contexts.Scanned.{InStep}
use sctx.Context.Wifi.Contexts.Steps.{
  no_rules, no_contexts, total-put, add_rule-InStep, created-InStep,
}
use sctx.Context.Wifi.Files.{read_rule, add_rules_from_reader}
use sctx.Prelude.{
  ℕ, suc, ◌+◌, ◌<◌, String, ◌≡◌, refl, ℤ, Bool, true, false, not, ◌||◌, Option, none, some, List,
  [], ◌∷◌, ltb, length, ◌∙◌, ap, sym, subst, if◌then◌else◌, arith, Option-cases, inl, inr,
}

-- What notifyContext leaves where it fails: the UI is told first.
unfoldable pub notified_part : String → SmartContext → SmartContext
notified_part n s = elim (s.eng.values n) [
  | none ↦ s
  | some v ↦ record s { notices = s.notices +++ ((n, v) ∷ []) }
]

-- The loop over the symbols, which an exception ends.
unfoldable pub announce : List String → SmartContext → SmartContext
unfolding notify_context notified_part
announce [] s = s
announce (n ∷ ns) s = elim (notify_context n s) [
  | none ↦ notified_part n s
  | some s' ↦ announce ns s'
]

-- `decode` and `next_int` are those of addRulesFromReader; the files are those of initContextEng.
module _ (decode : String → Option String) (next_int : String → Option ℤ)
    (own_file asset file : String → Option (List String)) where
  unfoldable pub open_own : String → Option (List String)
  open_own path = elim (own_file path) [ some ls ↦ some ls | none ↦ asset path ]

  -- The rule objects before they are made are `f`.
  unfoldable pub start_wifi : (ℕ → WifiRule) → WifiContext
  unfolding open_own add_rules_from_reader
  start_wifi f = elim (open_own "wifi_context.txt") [
    | none ↦ no_rules f
    | some ls ↦ add_rules_from_reader decode next_int 0 ls (no_rules f)
  ]

  -- An engine without init where the list of files cannot be opened: resetUI then fails on null.
  unfoldable pub start_engine : Option Engine
  unfolding open_own init_context_eng
  start_engine = elim (open_own "symbol_rules.txt") [
    | none ↦ none
    | some ls ↦ some (init_context_eng decode own_file asset file ls init)
  ]

  -- The keys are in the order of the iterator of the engine's symbols.
  unfoldable pub start_service : List String → Engine → SmartContext
  unfolding announce true_names
  start_service keys e =
      let s = announce (true_names e keys) (no_contexts e) in
      record s { lua_codes = s.lua_codes +++ ("require \"demo\"" ∷ []) }

  -- `ui_handler` says whether a handler of the UI thread is registered.
  unfoldable pub start_app : Bool → (Engine → List String) → (ℕ → WifiRule) → Screen → Engine → App
  unfolding start_service start_wifi
  start_app ui_handler key_order f screen e =
      let s = start_service (key_order e) e in
      with_reset
        (record {
          wifi = start_wifi f;
          service = quiet s;
          screen = screen;
          ui_queue = sent ui_handler (tasks_of s.notices);
          resets = [];
          ui_handler = ui_handler;
        })
        (key_order e) none

  -- onCreate. `registered` says whether the service and its handler can be registered in Singletons,
  -- for which the holders must be there.
  unfoldable pub on_create :
      Bool → Bool → (Engine → List String) → (ℕ → WifiRule) → Screen → Option App
  unfolding start_engine start_app
  on_create registered ui_handler key_order f screen =
      if registered
      then (elim start_engine [
        | none ↦ none
        | some e ↦ some (start_app ui_handler key_order f screen e)
      ])
      else none
