-- ===== src/Tests/Start.antt =====
-- SmartContext started with one rule for a network and one symbol that is true from the start.
use sctx.Context.Engine.{Engine, get_mark}
use sctx.Context.Engine.Names.{has_name, distinct_names}
use sctx.Context.Engine.Parse.{init}
use sctx.Context.Engine.Parse.Valid.{no_repeats}
use sctx.Context.Screen.{Screen}
use sctx.Context.Screen.Steps.{App, IsKeySet}
use sctx.Context.Smart.Files.{init_context_eng, all_plain}
use sctx.Context.Start.{open_own, on_create}
use sctx.Context.Start.Established.{IsStarted, on_create-IsStarted}
use sctx.Context.Text.{has_char}
use sctx.Context.Wifi.{WifiRule}
use sctx.Prelude.{
  ℕ, ℤ, pos, negsuc, String, ◌≡◌, refl, true, Option, none, some, List, [], ◌∷◌, str_eq,
  if◌then◌else◌, length, arith,
}
use sctx.Tests.Wifi.{rule}

abbrev no_file : String → Option (List String)
no_file path = none

abbrev asset : String → Option (List String)
asset path =
    if str_eq path "symbol_rules.txt"
    then some ("n,rules.txt" ∷ [])
    else (if str_eq path "rules.txt"
        then some ("s,!Wifi@home" ∷ [])
        else (if str_eq path "wifi_context.txt" then some ("home,net,-100,BLACK,0" ∷ []) else none))

abbrev next_int : String → Option ℤ
next_int t = if str_eq t "-100" then some (negsuc 99) else some (pos 0)

abbrev objects : ℕ → WifiRule
objects i = rule

abbrev screen : Screen
screen = record { ea = none; wra = none }

abbrev keys : Engine → List String
keys e = "n$s" ∷ []

abbrev ruled : Engine
ruled = init_context_eng some no_file asset no_file ("n,rules.txt" ∷ []) init

keys-IsKeySet : IsKeySet (keys ruled) ruled
unfolding init_context_eng has_char has_name distinct_names
keys-IsKeySet = record { all = λ n. ground arith; once = refl }

established :
    IsStarted true (on_create some next_int no_file asset no_file true true keys objects screen)
unfolding open_own all_plain has_char no_repeats get_mark
established =
    on_create-IsStarted some next_int no_file asset no_file objects true true keys screen
      ("n,rules.txt" ∷ []) refl refl keys-IsKeySet tt (λ there. refl) (omega arith)

abbrev codes : Option App → List String
codes none = []
codes (some a) = a.service.lua_codes

abbrev rule_count : Option App → ℕ
rule_count none = 0
rule_count (some a) = length a.wifi.rules

-- The code for the symbol is queued before the script that it calls is loaded.
start_codes :
    codes (on_create some next_int no_file asset no_file true true keys objects screen)
    ≡ "n_enter(\"s\")" ∷ "require \"demo\"" ∷ []
unfolding on_create init_context_eng has_char
start_codes = refl

start_rules :
    rule_count (on_create some next_int no_file asset no_file true true keys objects screen) ≡ 1
unfolding on_create init_context_eng has_char
start_rules = refl
