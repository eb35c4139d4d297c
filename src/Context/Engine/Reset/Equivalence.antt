-- ===== src/Context/Engine/Reset/Equivalence.antt =====
-- updateSystemSymbol of ContextInferenceEngine, which carries one change through the symbols, beside
-- resetSymbolValues, which computes all of them.
use sctx.Context.Engine.Names.{is_named, is_named-at, all_named-has_name}
use sctx.Context.Engine.{Engine, put_value, bool_eq, value_of, update_system_symbol}
use sctx.Context.Engine.Parse.Valid.{Valid}
use sctx.Context.Engine.Reset.{reset_symbol_values}
use sctx.Context.Engine.Reset.Determined.{names_of, values_same}
use sctx.Context.Engine.Reset.Rebuilt.{Kept}
use sctx.Context.Engine.Reset.Whole.{reset_symbol_values-Consistent}
use sctx.Context.Engine.Tracking.{IsComplete, update_system_symbol-IsComplete}
use sctx.Context.Engine.Truth.{one_true, one_true-same, value-one_true}
use sctx.Context.Engine.Update.{enough_fuel, key_name, Updated, update_system_symbol-Updated}
use sctx.Context.Text.{has_at}
use sctx.Prelude.{
  ℕ, zero, suc, ◌<◌, ◌≤◌, String, ◌≡◌, Bool, true, false, ◌||◌, Option, none, some, List, str_eq,
  eq_iff, arith, sym, subst,
}

pub is_named-key_name :
    (e : Engine) (name : String) (size : ℕ) (n : String)
    → is_named (key_name e name) (suc size) n ≡ (str_eq name n || is_named (names_of e) size n)
unfolding key_name is_named
is_named-key_name e name zero n = ground arith
is_named-key_name e name (suc size) n = ground (arith, is_named-key_name e name size n)

-- The update returned an engine whose values are those of `r`.
abbrev pub IsSame : Engine → Option (Engine × List String) → Type 0
IsSame r none = ⊥
IsSame r (some u) = (n : String) → value_of u.0 n ≡ value_of r n

module _ (e : Engine) (valid : Valid e) (name : String) (value : Bool)
    (is_system : has_at name ≡ true) where
  abbrev started : Engine
  started = record e { values = put_value e.values name value }

  abbrev r : Engine
  r = reset_symbol_values started

  reset_true :
      (j : ℕ) → j < e.size → value_of r (names_of e j) ≡ one_true (value_of r) e j e.clause_count
  unfolding value_of
  reset_true j h =
      let done =
        reset_symbol_values-Consistent e (put_value e.values name value) valid.consistent in
      let kept : Kept started r = done.1 in
      ground (
        arith,
        value-one_true r j done.0 (subst (λ k. j < k) (sym kept.size) h),
        kept.names j,
        kept.count,
        one_true-same (value_of r) e r j e.clause_count kept.owners
            (λ i. kept.meaning i (value_of r)),
      )

  module _ (o : Option (Engine × List String)) (u : Updated e name value o)
      (complete : IsComplete (value_of e) (some (u.engine, u.modified))) where
    -- A name that is no symbol.
    others_same :
        (n : String) → is_named (names_of e) e.size n ≡ false → value_of u.engine n ≡ value_of r n
    unfolding value_of bool_eq
    others_same n h =
        let done =
          reset_symbol_values-Consistent e (put_value e.values name value) valid.consistent in
        let kept : Kept started r = done.1 in
        ground (
          arith,
          kept.others n (λ j l. ground (arith, is_named-at (names_of e) e.size j n, h)),
          complete n,
          all_named-has_name (key_name e name) (suc e.size) u.modified n u.listed,
          is_named-key_name e name e.size n,
          u.set,
          eq_iff name n,
          h,
        )

    updated_same : (n : String) → value_of u.engine n ≡ value_of r n
    unfolding value_of
    updated_same =
        values_same e valid.consistent.shape (value_of u.engine) (value_of r)
          (λ j h. ground (arith, u.truth j h)) reset_true others_same

  -- On a valid engine, updateSystemSymbol of a system name with enough fuel ends, and leaves every
  -- name with the value that it has after the new value is put and resetSymbolValues computes all
  -- symbols.
  pub update_system_symbol-IsSame :
      (fuel : ℕ)
      → enough_fuel e name ≤ fuel
      → IsSame r (update_system_symbol has_at fuel e name value)
  update_system_symbol-IsSame fuel h =
      let o = update_system_symbol has_at fuel e name value in
      let u =
        update_system_symbol-Updated has_at e name value valid.consistent
          (λ j l. (valid.spelled j l).1) is_system fuel h in
      subst (IsSame r) (sym u.returned) (
        updated_same o u (
          subst (IsComplete (value_of e)) u.returned
            (update_system_symbol-IsComplete has_at fuel e name value)))
