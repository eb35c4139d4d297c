-- ===== src/Context/Engine/Reset/Rebuilt.antt =====
-- The loop of resetSymbolValues of ContextInferenceEngine over the symbols.
use sctx.Context.Engine.{Engine, get_mark, value_of}
use sctx.Context.Engine.Counts.{share, holding, holding-share}
use sctx.Context.Engine.Marks.{IsExact, all_true}
use sctx.Context.Engine.Pending.{mark_ok, agrees, Shape}
use sctx.Context.Engine.Reset.{reset_clause, reset_symbol}
use sctx.Context.Engine.Reset.Literals.{
  reset_clause-IsExact, reset_clause-agrees, reset_clause-absent, all_true-reset_clause,
  owner-reset_clause, reset_owned-at, holding-reset_owned,
}
use sctx.Prelude.{
  ℕ, suc, ◌<◌, ◌≤◌, String, ◌≡◌, Bool, true, false, ◌&&◌, none, some, ◌==◌, ltb, str_eq, eq_iff,
  eq_refl, if◌then◌else◌, arith, ◌∙◌, sym, subst,
}

-- The state once the first `k` symbols are computed.
pub record Rebuilt (k : ℕ) (e : Engine) : Type 0 where
  pub exact : (i : ℕ) → IsExact (e.clause i)
  pub agree :
      (n : String) (i : ℕ) → i < e.clause_count → (e.clause i).owner < k → agrees e n i ≡ true
  pub counted : (j : ℕ) → j < k → (e.symbols_by_id j).hold_count ≡ holding e.clause_count e.clause j
  pub unused : (j : ℕ) → e.size ≤ j → (e.symbols_by_id j).hold_count ≡ 0
  pub value :
      (j : ℕ)
      → j < k
      → e.values (e.symbols_by_id j).name ≡ some (ltb 0 (e.symbols_by_id j).hold_count)
  pub shape : Shape e

-- What the loop keeps.
pub record Kept (start : Engine) (e : Engine) : Type 0 where
  pub size : e.size ≡ start.size
  pub count : e.clause_count ≡ start.clause_count
  pub names : (j : ℕ) → (e.symbols_by_id j).name ≡ (start.symbols_by_id j).name
  pub owners : (i : ℕ) → (e.clause i).owner ≡ (start.clause i).owner
  pub meaning :
      (i : ℕ) (val : String → Bool)
      → all_true val (e.clause i).symbols ≡ all_true val (start.clause i).symbols
  pub others :
      (n : String)
      → ((j : ℕ) → j < start.size → str_eq (start.symbols_by_id j).name n ≡ false)
      → e.values n ≡ start.values n

module _ (k : ℕ) (e : Engine) (within : k < e.size) (r : Rebuilt k e) where
  abbrev next : Engine
  next = reset_symbol k e

  abbrev val : String → Bool
  val = value_of e

  next-at :
      (i : ℕ)
      → next.clause i ≡ (
          if ltb i e.clause_count && ((e.clause i).owner == k)
          then reset_clause val (e.clause i)
          else e.clause i)
  unfolding reset_symbol
  next-at i = reset_owned-at val k e.clause_count e.clause i

  next-owner : (i : ℕ) → (next.clause i).owner ≡ (e.clause i).owner
  next-owner i = ground (arith, next-at i, owner-reset_clause val (e.clause i))

  next-IsExact : (i : ℕ) → IsExact (next.clause i)
  next-IsExact i =
      ground (arith, next-at i, r.exact i, reset_clause-IsExact val (e.clause i) (r.exact i).1)

  next-absent :
      (i : ℕ) (n : String)
      → get_mark (e.clause i).symbols n ≡ none
      → get_mark (next.clause i).symbols n ≡ none
  next-absent i n h = ground (arith, next-at i, h, reset_clause-absent val (e.clause i) n h)

  next-names : (j : ℕ) → (next.symbols_by_id j).name ≡ (e.symbols_by_id j).name
  unfolding reset_symbol
  next-names j = ground arith

  next-Shape : Shape next
  unfolding reset_symbol
  next-Shape = record {
    owned = λ i h. ground (arith, next-owner i, r.shape.owned i h);
    listed = r.shape.listed;
    indexed = λ n i h out. next-absent i n (r.shape.indexed n i h out);
    named = λ i j hi hj same. ground (arith, next-names i, next-names j, r.shape.named i j hi hj);
    earlier = λ i j h hj le.
        subst (λ n. get_mark (next.clause i).symbols n ≡ none) (sym (next-names j))
          (next-absent i (e.symbols_by_id j).name
            (r.shape.earlier i j h hj (subst (λ o. o ≤ j) (next-owner i) le)));
  }

  next-share : (j i : ℕ) → j < k → share (next.clause i) j ≡ share (e.clause i) j
  unfolding share
  next-share j i h = ground (arith, next-at i, owner-reset_clause val (e.clause i))

  next-holding :
      (j : ℕ) → j < k → holding e.clause_count next.clause j ≡ holding e.clause_count e.clause j
  next-holding j h = holding-share e.clause_count e.clause next.clause j (λ i l. next-share j i h)

  next-counted :
      (j : ℕ)
      → j < suc k
      → (next.symbols_by_id j).hold_count ≡ holding next.clause_count next.clause j
  unfolding reset_symbol
  next-counted j h =
      ground (arith, holding-reset_owned val k e.clause_count e.clause, r.counted j, next-holding j)

  next-agrees :
      (n : String) (i : ℕ)
      → i < next.clause_count
      → (next.clause i).owner < suc k
      → agrees next n i ≡ true
  unfolding reset_symbol agrees mark_ok value_of
  next-agrees n i h o = ground (
    arith,
    next-at i,
    next-owner i,
    r.agree n i h,
    r.shape.earlier i k h within,
    reset_clause-agrees val (e.clause i) n,
    reset_clause-absent val (e.clause i) n,
    eq_iff (e.symbols_by_id k).name n,
  )

  next-value :
      (j : ℕ)
      → j < suc k
      → next.values (next.symbols_by_id j).name ≡ some (ltb 0 (next.symbols_by_id j).hold_count)
  unfolding reset_symbol
  next-value j h = ground (
    arith,
    r.value j,
    r.shape.named j k,
    eq_iff (e.symbols_by_id j).name (e.symbols_by_id k).name,
    eq_iff (e.symbols_by_id k).name (e.symbols_by_id j).name,
    eq_refl (e.symbols_by_id k).name,
  )

  pub Rebuilt-reset_symbol : Rebuilt (suc k) next
  unfolding reset_symbol
  Rebuilt-reset_symbol = record {
    exact = next-IsExact;
    agree = next-agrees;
    counted = next-counted;
    unused = λ j h. ground (arith, r.unused j);
    value = next-value;
    shape = next-Shape;
  }

  pub Kept-reset_symbol : (start : Engine) → Kept start e → Kept start next
  unfolding reset_symbol
  Kept-reset_symbol start kept = record {
    size = kept.size;
    count = kept.count;
    names = λ j. next-names j ∙ kept.names j;
    owners = λ i. next-owner i ∙ kept.owners i;
    meaning = λ i v.
        ground (arith, next-at i, all_true-reset_clause val v (e.clause i), kept.meaning i v);
    others = λ n h. ground (arith, kept.others n h, h k, kept.names k, kept.size);
  }
