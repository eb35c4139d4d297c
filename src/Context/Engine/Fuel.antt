-- ===== src/Context/Engine/Fuel.antt =====
-- The fuel of updateSystemSymbol of ContextInferenceEngine, and its results.
use sctx.Context.Engine.{
  Engine, Queue, poll_from, update_clauses, update_loop, value_of, is_last, bool_eq, put_value,
  update_system_symbol,
}
use sctx.Context.Engine.Update.{enough_fuel, update_system_symbol-Updated}
use sctx.Context.Engine.Parse.Valid.{Valid}
use sctx.Context.Engine.Reach.{plain_update}
use sctx.Context.Text.{has_at}
use sctx.Prelude.{
  ℕ, zero, suc, ◌≤◌, String, ◌≡◌, refl, Bool, true, not, Option, none, some, List, [], ◌∷◌,
  Bool-cases, inl, inr, arith,
}
use sctx.Prelude.Options.{is_some}

update_loop-more :
    (fuel more : ℕ) (last : Option String) (q : Queue) (e : Engine) (modified : List String)
    → fuel ≤ more
    → is_some (update_loop fuel last q e modified) ≡ true
    → update_loop more last q e modified ≡ update_loop fuel last q e modified
unfolding update_loop
update_loop-more zero more last q e modified h returns = ground (arith, returns)
update_loop-more (suc fuel) zero last q e modified h returns = absurd (omega (arith, h))
update_loop-more (suc fuel) (suc more) last [] e modified h returns = refl
update_loop-more (suc fuel) (suc more) last (b ∷ q) e modified h returns =
    let n = (poll_from b q).0.1 in
    let rest = (poll_from b q).1 in
    let told = update_clauses n (value_of e n) (e.clauses_of n) e rest in
    elim (Bool-cases (is_last last n)) [
      | inl again ↦ rw (again) (
          update_loop-more fuel more last rest e modified (omega (arith, h))
            (ground (arith, returns, again)))
      | inr fresh ↦ rw (fresh) (
          update_loop-more fuel more (some n) told.1 told.0 (n ∷ modified) (omega (arith, h))
            (ground (arith, returns, fresh)))
    ]

-- More fuel than a run needs gives the same result.
update_system_symbol-more :
    (fuel more : ℕ) (e : Engine) (name : String) (value : Bool)
    → fuel ≤ more
    → is_some (update_system_symbol has_at fuel e name value) ≡ true
    → update_system_symbol has_at more e name value ≡ update_system_symbol has_at fuel e name value
unfolding update_system_symbol
update_system_symbol-more fuel more e name value h returns =
    let started = record e { values = put_value e.values name value } in
    let stay : Option (Engine × List String) = some (e, []) in
    elim (Bool-cases (not (has_at name))) [
      | inl plain ↦ rw (plain) refl
      | inr at ↦ elim (Bool-cases (bool_eq (value_of e name) value)) [
        | inl same ↦ rw (at, same) refl
        | inr other ↦
            rw (at, other)
              (update_loop-more fuel more none ((0, name) ∷ []) started [] h
                (ground (arith, returns, at, other)))
      ]
    ]

enough_returns :
    (e : Engine) (name : String) (value : Bool)
    → Valid e
    → is_some (update_system_symbol has_at (enough_fuel e name) e name value) ≡ true
enough_returns e name value valid = elim (Bool-cases (has_at name)) [
  | inl at ↦
      let u =
        update_system_symbol-Updated has_at e name value valid.consistent
          (λ j l. (valid.spelled j l).1) at (enough_fuel e name) (omega arith) in
      ground (arith, u.returned)
  | inr plain ↦ ground (arith, plain_update e name value plain)
]

-- On a valid engine updateSystemSymbol ends: with the fuel of two rounds and, for the name and for
-- each symbol once, one round for each clause that it affects it has a result, and with any more it
-- has the same.
pub update_system_symbol-ends :
    (e : Engine) (name : String) (value : Bool) (fuel : ℕ)
    → Valid e
    → enough_fuel e name ≤ fuel
    → (is_some (update_system_symbol has_at fuel e name value) ≡ true)
      × (update_system_symbol has_at fuel e name value
          ≡ update_system_symbol has_at (enough_fuel e name) e name value)
update_system_symbol-ends e name value fuel valid h =
    let enough = enough_returns e name value valid in
    let same = update_system_symbol-more (enough_fuel e name) fuel e name value h enough in
    (ground (arith, same, enough), same)
