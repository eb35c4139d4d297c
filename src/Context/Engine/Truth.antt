-- ===== src/Context/Engine/Truth.antt =====
-- What the symbols of ContextInferenceEngine mean: a symbol is the disjunction of its clauses, a
-- clause the conjunction of its literals.
use sctx.Context.Engine.{Mark, Engine, get_mark, holds, value_of}
use sctx.Context.Engine.Marks.{literal_true, all_true, unmet, weight, unique}
use sctx.Context.Engine.Counts.{share, holding}
use sctx.Context.Engine.Pending.{mark_ok, agrees}
use sctx.Context.Engine.Loop.{Consistent}
use sctx.Prelude.{
  ℕ, zero, suc, ◌<◌, ◌≤◌, String, ◌≡◌, refl, Bool, true, false, ◌||◌, ◌&&◌, some, List, [], ◌∷◌,
  ◌==◌, ltb, eq_iff, eq_refl, arith,
}

-- With the values `val`, one of the first `n` clauses belongs to symbol `j` and has only true
-- literals.
unfoldable pub one_true : (String → Bool) → Engine → ℕ → ℕ → Bool
unfolding all_true
one_true val e j zero = false
one_true val e j (suc n) =
    ((e.clause n).owner == j && all_true val (e.clause n).symbols) || one_true val e j n

pub one_true-same :
    (val : String → Bool) (e e' : Engine) (j n : ℕ)
    → ((i : ℕ) → (e'.clause i).owner ≡ (e.clause i).owner)
    → ((i : ℕ) → all_true val (e'.clause i).symbols ≡ all_true val (e.clause i).symbols)
    → one_true val e' j n ≡ one_true val e j n
unfolding one_true
one_true-same val e e' j zero owners meaning = refl
one_true-same val e e' j (suc n) owners meaning =
    rw (owners n, meaning n, one_true-same val e e' j n owners meaning)

unmet-all_true :
    (val : String → Bool) (s : List (String × Mark))
    → unique s ≡ true
    → ((n : String) → mark_ok (get_mark s n) (val n) ≡ true)
    → all_true val s ≡ (unmet s == 0)
unfolding all_true unique unmet get_mark mark_ok weight literal_true
unmet-all_true val [] u ok = refl
unmet-all_true val ((k, m) ∷ s) u ok = ground (
  arith,
  unmet-all_true val s (ground arith) (λ n. ground (arith, ok n, eq_iff k n)),
  ok k,
  eq_refl k,
)

agree-mark_ok :
    (e : Engine) (k : String) (i : ℕ)
    → Consistent e
    → i < e.clause_count
    → mark_ok (get_mark (e.clause i).symbols k) (value_of e k) ≡ true
unfolding agrees
agree-mark_ok e k i c h = c.agree k i h

holding-one_true :
    (e : Engine) (j n : ℕ)
    → Consistent e
    → n ≤ e.clause_count
    → ltb 0 (holding n e.clause j) ≡ one_true (value_of e) e j n
unfolding holding one_true share holds
holding-one_true e j zero c h = refl
holding-one_true e j (suc n) c h = ground (
  arith,
  holding-one_true e j n c,
  c.inv.exact n,
  unmet-all_true (value_of e) (e.clause n).symbols (c.inv.exact n).1
      (λ k. agree-mark_ok e k n c (omega arith)),
)

-- In a consistent engine a symbol is true exactly when one of its clauses has only true literals.
pub value-one_true :
    (e : Engine) (j : ℕ)
    → Consistent e
    → j < e.size
    → e.values (e.symbols_by_id j).name ≡ some (one_true (value_of e) e j e.clause_count)
value-one_true e j c h =
    ground (arith, c.inv.value j h, c.inv.counted j, holding-one_true e j e.clause_count c)
