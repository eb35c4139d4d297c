-- ===== src/Context/Engine/Invariant.antt =====
-- The invariant of ContextInferenceEngine, and that telling one clause a value keeps it.
use sctx.Context.Engine.{Clause, Engine, Queue, holds, put, settle_owner}
use sctx.Context.Engine.Counts.{share, holding, holding-put}
use sctx.Context.Engine.Marks.{IsExact}
use sctx.Prelude.{ℕ, ◌<◌, ◌≡◌, subst, true, some, ltb, str_eq, eq_iff, arith}

-- The counts are those of the marks, and a symbol is true when one of its clauses holds.
pub record Inv (e : Engine) : Type 0 where
  pub exact : (i : ℕ) → IsExact (e.clause i)
  pub counted : (j : ℕ) → (e.symbols_by_id j).hold_count ≡ holding e.clause_count e.clause j
  pub value :
      (j : ℕ)
      → j < e.size
      → e.values (e.symbols_by_id j).name ≡ some (ltb 0 (e.symbols_by_id j).hold_count)

-- No two symbols have one name.
abbrev pub Named : Engine → Type 0
Named e =
    (j k : ℕ)
    → j < e.size
    → k < e.size
    → str_eq (e.symbols_by_id j).name (e.symbols_by_id k).name ≡ true
    → j ≡ k

module _ (e : Engine) (q : Queue) (i : ℕ) (c : Clause) (inv : Inv e) (named : Named e)
    (within : i < e.clause_count) (owner_within : (e.clause i).owner < e.size)
    (same_owner : c.owner ≡ (e.clause i).owner) (exact : IsExact c) where
  abbrev next : Engine
  next =
      (settle_owner (holds (e.clause i)) (holds c) (record e { clause = put e.clause i c }) q
        (e.clause i).owner).0

  next-IsExact : (k : ℕ) → IsExact (next.clause k)
  unfolding settle_owner
  next-IsExact k = ground (arith, inv.exact k)

  next-counted :
      (j : ℕ) → (next.symbols_by_id j).hold_count ≡ holding next.clause_count next.clause j
  unfolding settle_owner share
  next-counted j = ground (
    arith,
    inv.counted j,
    inv.counted (e.clause i).owner,
    holding-put e.clause_count e.clause i c j,
    holding-put e.clause_count e.clause i c (e.clause i).owner,
  )

  size-next : next.size ≡ e.size
  unfolding settle_owner
  size-next = ground arith

  next-value :
      (j : ℕ)
      → j < e.size
      → next.values (next.symbols_by_id j).name ≡ some (ltb 0 (next.symbols_by_id j).hold_count)
  unfolding settle_owner share
  next-value j h = ground (
    arith,
    inv.value j h,
    inv.value (e.clause i).owner owner_within,
    inv.counted (e.clause i).owner,
    holding-put e.clause_count e.clause i c (e.clause i).owner within,
    named j (e.clause i).owner h owner_within,
    named (e.clause i).owner j owner_within h,
    eq_iff (e.symbols_by_id j).name (e.symbols_by_id (e.clause i).owner).name,
  )

  pub settle_owner-Inv : Inv next
  settle_owner-Inv = record {
    exact = next-IsExact;
    counted = next-counted;
    value = λ j h. next-value j (subst (λ n. j < n) size-next h);
  }
