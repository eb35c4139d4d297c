-- ===== src/Context/Engine/Reset.antt =====
-- resetSymbolValues of ContextInferenceEngine, which computes every symbol anew from its clauses.
pub mod Literals
pub mod Rebuilt
pub mod Whole
pub mod Determined
pub mod Equivalence
use sctx.Context.Engine.{
  Mark, wait_true, wait_false, met_true, met_false, Clause, Engine, holds, put, put_value, value_of,
}
use sctx.Context.Engine.Parse.{mark_of, waits}
use sctx.Prelude.{
  ℕ, zero, suc, ◌+◌, ◌-◌, String, Bool, true, false, List, [], ◌∷◌, ◌==◌, ltb, if◌then◌else◌,
  length,
}

-- The lowest bit of the code of a literal is 0.
unfoldable pub positive : Mark → Bool
positive wait_true = true
positive met_true = true
positive _ = false

-- The loop over the literals of a clause, from a count of those that wait.
unfoldable pub reset_literals :
    (String → Bool) → List (String × Mark) → ℕ → ℕ × List (String × Mark)
unfolding positive mark_of waits
reset_literals val [] w = (w, [])
reset_literals val ((k, m) ∷ s) w =
    let m' = mark_of (positive m) (val k) in
    let (w', s') = reset_literals val s (if waits m' then w else w - 1) in (w', (k, m') ∷ s')

unfoldable pub reset_clause : (String → Bool) → Clause → Clause
unfolding reset_literals
reset_clause val c =
    let (w, s) = reset_literals val c.symbols (length c.symbols) in
    record c { waiting_count = w; symbols = s }

-- The loop over the clauses of symbol `j`, which are those among the first `n` that it owns: the
-- clauses after it, and the count of those that hold.
unfoldable pub reset_owned : (String → Bool) → ℕ → ℕ → (ℕ → Clause) → (ℕ → Clause) × ℕ
unfolding reset_clause holds
reset_owned val j zero f = (f, 0)
reset_owned val j (suc n) f =
    let (g, count) = reset_owned val j n f in
    let c = reset_clause val (g n) in
    if (g n).owner == j then (put g n c, if holds c then count + 1 else count) else (g, count)

-- The body of the loop over the symbols.
unfoldable pub reset_symbol : ℕ → Engine → Engine
unfolding reset_owned value_of
reset_symbol j e =
    let s = e.symbols_by_id j in
    let (f, count) = reset_owned (value_of e) j e.clause_count e.clause in
    record e {
      clause = f;
      symbols_by_id = put e.symbols_by_id j (record s { hold_count = count });
      values = put_value e.values s.name (ltb 0 count);
    }

-- The loop over the first `k` symbols.
unfoldable pub reset_symbols : ℕ → Engine → Engine
unfolding reset_symbol
reset_symbols zero e = e
reset_symbols (suc k) e = reset_symbol k (reset_symbols k e)

-- resetSymbolValues
unfoldable pub reset_symbol_values : Engine → Engine
unfolding reset_symbols
reset_symbol_values e = reset_symbols e.size e
