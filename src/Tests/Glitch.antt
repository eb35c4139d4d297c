-- ===== src/Tests/Glitch.antt =====
-- A symbol of ContextInferenceEngine that one update makes true and false again: it is reported as
-- modified although its value is as before, and SmartContext queues the code for leaving it.
use sctx.Context.Engine.{Engine, value_of, update_system_symbol}
use sctx.Context.Engine.Parse.{init, parse_lines}
use sctx.Context.Engine.Update.{enough_fuel}
use sctx.Context.Smart.{SmartContext, set_context}
use sctx.Context.Text.{has_at, has_char}
use sctx.Prelude.{String, ◌≡◌, refl, Bool, true, false, Option, none, some, List, [], ◌∷◌}

abbrev lines : List String
lines = "a,@w" ∷ "b,@w" ∷ "s,a+!b" ∷ []

abbrev ruled : Engine
ruled = parse_lines some "n" lines init

-- The value of "n$s" before and after, and the names that were modified.
abbrev outcome : Option (Engine × List String) → Option (Bool × List String)
outcome none = none
outcome (some r) = some (value_of r.0 "n$s", r.1)

was_false : value_of ruled "n$s" ≡ false
unfolding parse_lines value_of has_char
was_false = refl

modified_twice :
    outcome (update_system_symbol has_at 9 ruled "@w" true)
    ≡ some (false, "n$s" ∷ "n$b" ∷ "n$a" ∷ "@w" ∷ [])
unfolding parse_lines update_system_symbol value_of has_char
modified_twice = refl

abbrev state : SmartContext
state = record { native_context_ref = λ n. none; eng = ruled; notices = []; lua_codes = [] }

abbrev codes : Option SmartContext → List String
codes none = []
codes (some s) = s.lua_codes

left_unentered :
    codes (set_context "@w" true state)
    ≡ "n_enter(\"a\")" ∷ "n_enter(\"b\")" ∷ "n_leave(\"s\")" ∷ []
unfolding parse_lines set_context enough_fuel has_char update_system_symbol
left_unentered = refl
