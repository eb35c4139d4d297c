-- ===== src/Tests/Rules.antt =====
-- Rules of ContextInferenceEngine that are parsed, and what updates do to their symbols.
use sctx.Context.Engine.{Engine, get_mark, value_of, update_system_symbol}
use sctx.Context.Engine.Parse.{add_literal, resolve, init, parse_name, parse, parse_lines}
use sctx.Context.Engine.Parse.Valid.{no_repeats}
use sctx.Context.Engine.Parse.Accepted.{is_rule, IsTaken, parse-IsTaken}
use sctx.Context.Engine.Reach.{
  init-Valid, parsed, updated, Reached, fresh, stepped, Reached-Valid, Reached-true,
}
use sctx.Context.Engine.Parse.Valid.{Valid}
use sctx.Context.Engine.Loop.{Consistent}
use sctx.Context.Engine.{put_value}
use sctx.Context.Engine.Round.{load}
use sctx.Context.Engine.Fuel.{update_system_symbol-ends}
use sctx.Context.Engine.Once.{IsOnce, update_system_symbol-IsOnce}
use sctx.Prelude.Options.{is_some}
use sctx.Context.Engine.Update.{key_name}
use sctx.Context.Engine.Reset.{reset_symbol_values}
use sctx.Context.Engine.Reset.Rebuilt.{Kept}
use sctx.Context.Engine.Reset.Whole.{reset_symbol_values-Consistent}
use sctx.Context.Engine.Reset.Equivalence.{IsSame, update_system_symbol-IsSame}
use sctx.Context.Engine.Listed.{IsListed, update_system_symbol-IsListed}
use sctx.Context.Engine.Truth.{one_true}
use sctx.Context.Engine.Update.{enough_fuel}
use sctx.Context.Text.{has_at, has_char, tokens}
use sctx.Prelude.{String, ◌≡◌, refl, Bool, true, false, Option, none, some, List, [], ◌∷◌, arith}

-- A scanner steps over one separator before each token.
tokens_middle : tokens b',' ",a,,b," ≡ "a" ∷ "" ∷ "b" ∷ []
unfolding tokens
tokens_middle = refl

-- A rule with a clause of two literals, and one without.
abbrev lines : List String
lines = "s,@w+!@x" ∷ "t,s,@y" ∷ "t,@z" ∷ "u,v" ∷ "u,u" ∷ "always,a$b" ∷ []

-- The rule that names a symbol again, and those of an unknown symbol, are refused.
ruled_size : (parse_lines some "n" lines init).size ≡ 2
unfolding parse_lines has_char
ruled_size = refl

-- "@w" makes "n$s" and "n$t" true.
abbrev outcome : Option (Engine × List String) → Option ((Bool × Bool) × List String)
unfolding value_of
outcome none = none
outcome (some r) = some ((value_of r.0 "n$s", value_of r.0 "n$t"), r.1)

abbrev ruled : Engine
ruled = parse_lines some "n" lines init

entered :
    outcome (update_system_symbol has_at 9 ruled "@w" true)
    ≡ some ((true, true), "n$t" ∷ "n$s" ∷ "@w" ∷ [])
unfolding parse_lines update_system_symbol has_char
entered = refl

parse-IsTaken_example :
    IsTaken some "n" init
      (is_rule some "n" init (tokens b',' "s,@w+!@x"))
      (parse some "n" "s,@w+!@x" init)
unfolding has_char no_repeats parse_name resolve get_mark add_literal
parse-IsTaken_example = parse-IsTaken some "n" init "s,@w+!@x" init-Valid refl refl

abbrev engine_of : Option Engine → Engine
engine_of none = init
engine_of (some e) = e

abbrev one_rule : Engine
one_rule = engine_of (parse some "n" "s,@w+!@x" init)

abbrev updated_engine : Option (Engine × List String) → Engine
updated_engine none = init
updated_engine (some r) = r.0

abbrev entered_w : Engine
entered_w =
    updated_engine (update_system_symbol has_at (enough_fuel one_rule "@w") one_rule "@w" true)

one_rule-Reached : Reached some entered_w
unfolding parse update_system_symbol enough_fuel has_char no_repeats
one_rule-Reached =
    stepped (stepped fresh (parsed "n" "s,@w+!@x" refl refl refl))
      (updated "@w" true ("n$s" ∷ "@w" ∷ []) refl)

Reached-true_example :
    entered_w.values "n$s" ≡ some (one_true (value_of entered_w) entered_w 0 entered_w.clause_count)
unfolding parse update_system_symbol enough_fuel has_char
Reached-true_example = Reached-true some entered_w 0 one_rule-Reached (omega arith)

one_rule-Valid : Valid one_rule
unfolding parse has_char no_repeats get_mark
one_rule-Valid = Reached-Valid some one_rule (stepped fresh (parsed "n" "s,@w+!@x" refl refl refl))

update_system_symbol-IsListed_example :
    IsListed one_rule (update_system_symbol has_at 3 one_rule "@w" true)
unfolding parse has_char enough_fuel load key_name
update_system_symbol-IsListed_example =
    update_system_symbol-IsListed one_rule "@w" true 3 one_rule-Valid (omega arith)

update_system_symbol-IsSame_example :
    IsSame
      (reset_symbol_values (record one_rule { values = put_value one_rule.values "@w" true }))
      (update_system_symbol has_at 3 one_rule "@w" true)
unfolding parse has_char enough_fuel load key_name
update_system_symbol-IsSame_example =
    update_system_symbol-IsSame one_rule one_rule-Valid "@w" true refl 3 (omega arith)

-- With every name true, "!@x" is false.
abbrev all_values : String → Option Bool
all_values n = some true

reset_values :
    (reset_symbol_values (record one_rule { values = all_values })).values "n$s" ≡ some false
unfolding parse has_char reset_symbol_values
reset_values = refl

reset_symbol_values-Consistent_example :
    Consistent (reset_symbol_values (record one_rule { values = all_values }))
    × Kept
        (record one_rule { values = all_values })
        (reset_symbol_values (record one_rule { values = all_values }))
reset_symbol_values-Consistent_example =
    reset_symbol_values-Consistent one_rule all_values one_rule-Valid.consistent

update_system_symbol-ends_example :
    (is_some (update_system_symbol has_at 3 one_rule "@w" true) ≡ true)
    × (update_system_symbol has_at 3 one_rule "@w" true
        ≡ update_system_symbol has_at (enough_fuel one_rule "@w") one_rule "@w" true)
unfolding parse has_char enough_fuel load key_name
update_system_symbol-ends_example =
    update_system_symbol-ends one_rule "@w" true 3 one_rule-Valid (omega arith)

update_system_symbol-IsOnce_example : IsOnce 2 (update_system_symbol has_at 3 one_rule "@w" true)
unfolding parse has_char enough_fuel load key_name
update_system_symbol-IsOnce_example =
    update_system_symbol-IsOnce one_rule "@w" true 3 one_rule-Valid refl (omega arith)

-- A literal that stands twice in a clause is counted twice and met once: the symbol stays false
-- although its clause has only true literals.
abbrev repeated : Engine
repeated = engine_of (parse some "n" "s,@w+@w" init)

stays_false :
    outcome (update_system_symbol has_at 9 repeated "@w" true) ≡ some ((false, false), "@w" ∷ [])
unfolding parse update_system_symbol has_char
stays_false = refl
