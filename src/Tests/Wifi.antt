-- ===== src/Tests/Wifi.antt =====
-- WifiContext with one rule, and SmartContext with one symbol that follows it.
use sctx.Context.Engine.{Engine, get_mark, value_of, update_system_symbol}
use sctx.Context.Engine.Update.{enough_fuel}
use sctx.Context.Engine.Parse.{init, parse}
use sctx.Context.Engine.Parse.Valid.{Valid, no_repeats}
use sctx.Context.Engine.Reach.{parsed, fresh, stepped, Reached-Valid}
use sctx.Context.Smart.{
  SmartContext, get_native_context, put_native_context, lua_code, notify_context,
}
use sctx.Context.Smart.Counted.{
  count, IsRecounted, get_native_context-IsRecounted, put_native_context-IsRecounted,
}
use sctx.Context.Smart.Notices.{notify_context-qualify}
use sctx.Context.Text.{has_at, has_char, qualify}
use sctx.Context.Wifi.{
  WifiRule, WifiContext, ScanResult, black, add_rule, remove_rule, remove_rules,
  set_wifi_scan_result,
}
use sctx.Context.Wifi.Contexts.{now}
use sctx.Context.Wifi.Contexts.Changing.{total}
use sctx.Context.Wifi.Contexts.Scanned.{InStep, IsScanned, set_wifi_scan_result-IsScanned}
use sctx.Context.Wifi.Contexts.Steps.{
  added, scanned, no_rules, no_contexts, Reached, created, stepped as then, Reached-InStep,
  Reached-entered,
}
use sctx.Context.Wifi.Listener.{
  rssi_changed, state_changed, WifiManager, networks, enabled_after, on_receive, IsReceived,
  on_receive-IsReceived, IsLeft, on_receive-IsLeft,
}
use sctx.Context.Wifi.Removal.{IsCleared, remove_rules-IsCleared}
use sctx.Prelude.{
  ◌+◌, ◌-◌, negsuc, String, ◌≡◌, refl, true, false, Option, none, some, [], ◌∷◌, ltb, arith,
}

abbrev pub rule : WifiRule
rule = record {
  ssid = some "home";
  result_context = "Wifi@home";
  level_threshold = negsuc 199;
  list_type = black;
  essid_list = some [];
  last_ref_count = 0;
  ref_count = 0;
}

abbrev pub network : ScanResult
network = record { ssid = "home"; bssid = "00"; level = negsuc 49 }

abbrev pub engine_of : Option Engine → Engine
engine_of none = init
engine_of (some e) = e

abbrev pub engine : Engine
engine = engine_of (parse some "n" "s,Wifi@home" init)

engine-Valid : Valid engine
unfolding parse has_char no_repeats get_mark
engine-Valid = Reached-Valid some engine (stepped fresh (parsed "n" "s,Wifi@home" refl refl refl))

abbrev pub rules : WifiContext
rules = add_rule 0 (no_rules (λ i. rule))

abbrev states : Option (WifiContext × SmartContext) → WifiContext × SmartContext
states none = (rules, no_contexts engine)
states (some r) = r

abbrev entered : WifiContext × SmartContext
entered = states (set_wifi_scan_result (network ∷ []) rules (no_contexts engine))

entered_codes : entered.1.lua_codes ≡ "n_enter(\"s\")" ∷ []
unfolding parse set_wifi_scan_result add_rule has_char update_system_symbol enough_fuel
entered_codes = refl

entered_symbol : value_of entered.1.eng "n$s" ≡ true
unfolding parse set_wifi_scan_result add_rule has_char update_system_symbol enough_fuel value_of
entered_symbol = refl

-- When the network is gone the context is left.
abbrev left : WifiContext × SmartContext
left = states (set_wifi_scan_result [] entered.0 entered.1)

left_symbol : value_of left.1.eng "n$s" ≡ false
unfolding parse set_wifi_scan_result add_rule has_char update_system_symbol enough_fuel value_of
left_symbol = refl

-- A rule that is removed while it matches: the context stays entered after the network is gone.
abbrev rules_without : Option WifiContext → WifiContext
rules_without none = rules
rules_without (some w) = w

abbrev kept_entered : WifiContext × SmartContext
kept_entered = states (set_wifi_scan_result [] (rules_without (remove_rule 0 entered.0)) entered.1)

kept_entered_symbol : value_of kept_entered.1.eng "Wifi@home" ≡ true
unfolding parse set_wifi_scan_result add_rule remove_rule has_char update_system_symbol enough_fuel
    value_of
kept_entered_symbol = refl

out : (m : String) → has_at m ≡ true → value_of engine m ≡ false
unfolding parse has_char value_of
out m at = ground arith

rules-Reached : Reached (λ i. rule) engine rules (no_contexts engine)
rules-Reached = then created (added 0 (omega arith))

pub rules-InStep : InStep rules (no_contexts engine)
rules-InStep =
    Reached-InStep (λ i. rule) engine rules (no_contexts engine) engine-Valid out rules-Reached

set_wifi_scan_result-IsScanned_example :
    IsScanned rules (network ∷ []) (set_wifi_scan_result (network ∷ []) rules (no_contexts engine))
set_wifi_scan_result-IsScanned_example =
    set_wifi_scan_result-IsScanned rules (no_contexts engine) rules-InStep (network ∷ [])
      (omega arith)

entered-Reached : Reached (λ i. rule) engine entered.0 entered.1
unfolding parse set_wifi_scan_result add_rule has_char update_system_symbol enough_fuel
entered-Reached = then rules-Reached (scanned (network ∷ []) entered.0 entered.1 (omega arith) refl)

Reached-entered_example :
    value_of entered.1.eng "Wifi@home"
    ≡ ltb 0 (total now entered.0.rule entered.0.rules "Wifi@home")
unfolding has_char
Reached-entered_example =
    Reached-entered (λ i. rule) engine entered.0 entered.1 "Wifi@home" engine-Valid out
      entered-Reached refl

remove_rules-IsCleared_example :
    IsCleared (some "Wifi@home") none rules (remove_rules (some "Wifi@home") none rules)
remove_rules-IsCleared_example =
    remove_rules-IsCleared (some "Wifi@home") none rules rules-InStep.indexed

get_native_context-IsRecounted_example :
    IsRecounted "Wifi@home"
      (count (no_contexts engine) "Wifi@home" + 1)
      (no_contexts engine)
      (get_native_context "Wifi@home" (no_contexts engine))
unfolding count
get_native_context-IsRecounted_example =
    get_native_context-IsRecounted (no_contexts engine) rules-InStep.well_formed "Wifi@home"
      (omega arith)

entered-InStep : InStep entered.0 entered.1
entered-InStep =
    Reached-InStep (λ i. rule) engine entered.0 entered.1 engine-Valid out entered-Reached

put_native_context-IsRecounted_example :
    IsRecounted "Wifi@home"
      (count entered.1 "Wifi@home" - 1)
      entered.1
      (put_native_context "Wifi@home" entered.1)
put_native_context-IsRecounted_example =
    put_native_context-IsRecounted entered.1 entered-InStep.well_formed "Wifi@home"

notify_context-qualify_example :
    notify_context "n$s" (no_contexts engine)
    ≡ some (record (no_contexts engine) {
      notices = ("n$s", false) ∷ [];
      lua_codes = "n_leave(\"s\")" ∷ [];
    })
unfolding parse has_char qualify lua_code
notify_context-qualify_example =
    notify_context-qualify "n" "s" false (no_contexts engine) refl refl refl refl

abbrev manager : WifiManager
manager = record { enabled = true; scan_results = network ∷ [] }

on_receive-IsReceived_example :
    IsReceived rules
      (no_contexts engine)
      true
      (some (network ∷ []))
      (on_receive rssi_changed manager (true, rules, no_contexts engine))
unfolding networks enabled_after
on_receive-IsReceived_example =
    on_receive-IsReceived rules (no_contexts engine) rules-InStep rssi_changed manager true
      (omega arith)

on_receive-IsLeft_example :
    IsLeft true "Wifi@home" (on_receive state_changed manager (true, entered.0, entered.1))
unfolding has_char
on_receive-IsLeft_example =
    on_receive-IsLeft entered.0 entered.1 entered-InStep manager true "Wifi@home" refl
