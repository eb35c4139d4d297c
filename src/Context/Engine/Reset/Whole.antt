-- ===== src/Context/Engine/Reset/Whole.antt =====
-- resetSymbolValues of ContextInferenceEngine as a whole, and the engine that it leaves.
use sctx.Context.Engine.{Engine}
use sctx.Context.Engine.Counts.{holding, holding-owned}
use sctx.Context.Engine.Loop.{Consistent}
use sctx.Context.Engine.Pending.{Shape}
use sctx.Context.Engine.Reset.{reset_symbols, reset_symbol_values}
use sctx.Prelude.{ℕ, zero, suc, ◌<◌, ◌≤◌, String, ◌≡◌, refl, Bool, Option, arith, sym, subst}
use sctx.Context.Engine.Reset.Rebuilt.{Rebuilt, Kept, Rebuilt-reset_symbol, Kept-reset_symbol}

reset_symbols-Rebuilt :
    (e : Engine) (k : ℕ)
    → k ≤ e.size
    → Rebuilt 0 e
    → Rebuilt k (reset_symbols k e) × Kept e (reset_symbols k e)
unfolding reset_symbols
reset_symbols-Rebuilt e zero h r = (
  r,
  record {
    size = refl;
    count = refl;
    names = λ j. refl;
    owners = λ i. refl;
    meaning = λ i val. refl;
    others = λ n apart. refl;
  },
)
reset_symbols-Rebuilt e (suc k) h r =
    let before = reset_symbols-Rebuilt e k (omega arith) r in
    let within = subst (λ n. k < n) (sym before.1.size) h in
    (
      Rebuilt-reset_symbol k (reset_symbols k e) within before.0,
      Kept-reset_symbol k (reset_symbols k e) within before.0 e before.1,
    )

holding-unused : (e : Engine) (j : ℕ) → Shape e → e.size ≤ j → holding e.clause_count e.clause j ≡ 0
holding-unused e j shape h =
    holding-owned e.clause_count j e.clause (λ i l. omega (arith, shape.owned i l, h))

Consistent-Rebuilt : (e : Engine) → Rebuilt e.size e → Consistent e
Consistent-Rebuilt e r = record {
  inv = record {
    exact = r.exact;
    counted = λ j. ground (arith, r.counted j, r.unused j, holding-unused e j r.shape);
    value = r.value;
  };
  shape = r.shape;
  agree = λ n i h. r.agree n i h (r.shape.owned i h);
}

Rebuilt-values :
    (e : Engine) (values : String → Option Bool)
    → Consistent e
    → Rebuilt 0 (record e { values = values })
Rebuilt-values e values c = record {
  exact = c.inv.exact;
  agree = λ n i h before. absurd (omega (arith, before));
  counted = λ j before. absurd (omega (arith, before));
  unused = λ j h. ground (arith, c.inv.counted j, holding-unused e j c.shape);
  value = λ j before. absurd (omega (arith, before));
  shape = record {
    owned = c.shape.owned;
    listed = c.shape.listed;
    indexed = c.shape.indexed;
    named = c.shape.named;
    earlier = c.shape.earlier;
  };
}

-- On a consistent engine whose values were replaced by any others, resetSymbolValues leaves a
-- consistent engine with the same symbols, names, owners and meanings of clauses, in which every
-- name that no symbol has keeps its value.
pub reset_symbol_values-Consistent :
    (e : Engine) (values : String → Option Bool)
    → Consistent e
    → let e' = record e { values = values } in
      Consistent (reset_symbol_values e') × Kept e' (reset_symbol_values e')
unfolding reset_symbol_values
reset_symbol_values-Consistent e values c =
    let e' = record e { values = values } in
    let done = reset_symbols-Rebuilt e' e.size (omega arith) (Rebuilt-values e values c) in
    (
      Consistent-Rebuilt (reset_symbols e.size e')
          (subst (λ n. Rebuilt n (reset_symbols e.size e')) (sym done.1.size) done.0),
      done.1,
    )
