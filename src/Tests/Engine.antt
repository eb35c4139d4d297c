-- ===== src/Tests/Engine.antt =====
-- The update of ContextInferenceEngine on an engine with the rule "s,@w", where "@w" becomes true.
use sctx.Context.Engine.{includes, Clause, Engine, wait_true, get_mark, holds, update_system_symbol}
use sctx.Context.Engine.Marks.{unmet, weight, unique}
use sctx.Context.Engine.Counts.{share, holding}
use sctx.Context.Engine.Pending.{mark_ok, agrees}
use sctx.Context.Engine.Loop.{Consistent}
use sctx.Context.Engine.Round.{load}
use sctx.Context.Engine.Update.{enough_fuel, key_name, Updated, update_system_symbol-Updated}
use sctx.Prelude.{
  ℕ, String, ◌≡◌, refl, Bool, true, false, Option, none, some, List, [], ◌∷◌, str_eq, if◌then◌else◌,
  arith,
}

abbrev waiting : Clause
waiting = record { owner = 0; waiting_count = 1; symbols = ("@w", wait_true) ∷ [] }

abbrev walking : Engine
walking = record {
  values = λ n. if str_eq "n$s" n then some false else none;
  clauses_of = λ n. if str_eq "@w" n then 0 ∷ [] else [];
  symbols_by_id = λ j. record { name = "n$s"; hold_count = 0 };
  size = 1;
  clause = λ i. waiting;
  clause_count = 1;
}

abbrev is_system : String → Bool
is_system n = str_eq "@w" n

counted : (j : ℕ) → 0 ≡ holding 1 (λ i. waiting) j
unfolding holding share holds
counted j = ground arith

walking-Consistent : Consistent walking
unfolding unmet weight unique get_mark includes agrees mark_ok
walking-Consistent = record {
  inv = record { exact = λ i. (refl, refl); counted = counted; value = λ j h. refl };
  shape = record {
    owned = λ i h. omega arith;
    listed = λ n i h. ground (arith, h);
    indexed = λ n i h out. ground (arith, h, out);
    named = λ j k hj hk same. omega (arith, hj, hk);
    earlier = λ i j h hj le. refl;
  };
  agree = λ n i h. ground arith;
}

-- The symbol becomes true, and both names are modified.
abbrev outcome : Option (Engine × List String) → Option (Option Bool × List String)
outcome none = none
outcome (some r) = some (r.0.values "n$s", r.1)

updated_walking :
    outcome (update_system_symbol is_system 3 walking "@w" true)
    ≡ some (some true, "n$s" ∷ "@w" ∷ [])
unfolding update_system_symbol
updated_walking = refl

update_system_symbol-Updated_example :
    Updated walking "@w" true (update_system_symbol is_system 3 walking "@w" true)
unfolding enough_fuel load key_name
update_system_symbol-Updated_example =
    update_system_symbol-Updated is_system walking "@w" true walking-Consistent (λ j h. refl) refl 3
      (omega arith)
