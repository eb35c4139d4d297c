-- ===== src/Context/Engine/Listed.antt =====
-- The list that updateSystemSymbol of ContextInferenceEngine returns where the engine is valid.
use sctx.Context.Engine.{Engine, value_of, bool_eq, update_system_symbol}
use sctx.Context.Engine.Fuel.{update_system_symbol-ends}
use sctx.Context.Engine.Names.{has_name}
use sctx.Context.Engine.Parse.Valid.{Valid}
use sctx.Context.Engine.Tracking.{IsComplete, update_system_symbol-IsComplete}
use sctx.Context.Engine.Update.{enough_fuel}
use sctx.Context.Text.{has_at}
use sctx.Prelude.{ℕ, ◌≤◌, String, ◌≡◌, Bool, true, ◌||◌, Option, none, some, List, arith}
use sctx.Prelude.Options.{is_some}

-- The update ended, and each name has its old value or is in the list.
abbrev pub IsListed : Engine → Option (Engine × List String) → Type 0
IsListed e none = ⊥
IsListed e (some r) =
    (n : String) → (bool_eq (value_of r.0 n) (value_of e n) || has_name r.1 n) ≡ true

ended-IsListed :
    (e : Engine) (o : Option (Engine × List String))
    → is_some o ≡ true
    → IsComplete (value_of e) o
    → IsListed e o
ended-IsListed e none h done = absurd (ground (arith, h))
ended-IsListed e (some r) h done = done

-- On a valid engine, updateSystemSymbol with enough fuel ends, and the list that it returns has every
-- name that has another value after it.
pub update_system_symbol-IsListed :
    (e : Engine) (name : String) (value : Bool) (fuel : ℕ)
    → Valid e
    → enough_fuel e name ≤ fuel
    → IsListed e (update_system_symbol has_at fuel e name value)
update_system_symbol-IsListed e name value fuel valid h =
    ended-IsListed e (update_system_symbol has_at fuel e name value)
      (update_system_symbol-ends e name value fuel valid h).0
      (update_system_symbol-IsComplete has_at fuel e name value)
