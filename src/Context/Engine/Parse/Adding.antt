-- ===== src/Context/Engine/Parse/Adding.antt =====
-- The second half of parse of ContextInferenceEngine: the new symbol and its clauses go into the
-- engine one after the other.
use sctx.Context.Engine.{Mark, Clause, Engine, includes, get_mark, value_of}
use sctx.Context.Engine.Counts.{share, holding, holding-put_above}
use sctx.Context.Engine.Marks.{IsExact}
use sctx.Context.Engine.Parse.{count_holding, index_clause, add_clause, add_clauses}
use sctx.Context.Engine.Parse.Good.{known, All, cons, All-map}
use sctx.Context.Engine.Pending.{mark_ok, agrees, Shape}
use sctx.Context.Text.{has_at, has_dollar}
use sctx.Prelude.{
  ℕ, suc, ◌+◌, ◌<◌, String, ◌≡◌, refl, true, false, ◌||◌, ◌&&◌, none, some, List, [], ◌∷◌, ◌==◌,
  ltb, if◌then◌else◌, arith,
}
use sctx.Prelude.Options.{is_some}

includes-index_clause :
    (i : ℕ) (s : List (String × Mark)) (f : String → List ℕ) (n : String) (j : ℕ)
    → includes (index_clause i s f n) j ≡ (includes (f n) j || ((i == j) && is_some (get_mark s n)))
unfolding includes index_clause get_mark
includes-index_clause i [] f n j = ground arith
includes-index_clause i ((k, m) ∷ s) f n j =
    ground (arith, includes-index_clause i s f n j, includes-index_clause i s f n i)

-- The names of the symbols are qualified and are no system names.
abbrev pub Spelled : Engine → Type 0
Spelled e =
    (j : ℕ)
    → j < e.size
    → (has_dollar (e.symbols_by_id j).name ≡ true) × (has_at (e.symbols_by_id j).name ≡ false)

-- The literals of the clauses have known symbols.
abbrev pub Closed : Engine → Type 0
Closed e =
    (i : ℕ) (n : String) → i < e.clause_count → known e n (get_mark (e.clause i).symbols n) ≡ true

-- The state while the clauses `rest` of the new symbol are still to be added.
pub record Adding (new : ℕ) (own : String) (rest : List Clause) (e : Engine) : Type 0 where
  pub size : e.size ≡ suc new
  pub name : (e.symbols_by_id new).name ≡ own
  pub exact : (i : ℕ) → IsExact (e.clause i)
  pub counted :
      (j : ℕ)
      → (e.symbols_by_id j).hold_count
        ≡ holding e.clause_count e.clause j + (if j == new then count_holding rest else 0)
  pub value :
      (j : ℕ)
      → j < e.size
      → e.values (e.symbols_by_id j).name ≡ some (ltb 0 (e.symbols_by_id j).hold_count)
  pub shape : Shape e
  pub agree : (n : String) (i : ℕ) → i < e.clause_count → agrees e n i ≡ true
  pub closed : Closed e
  pub spelled : Spelled e

-- A clause of the new symbol.
pub record Fits (e : Engine) (new : ℕ) (own : String) (c : Clause) : Type 0 where
  pub exact : IsExact c
  pub owner : c.owner ≡ new
  pub agree : (n : String) → mark_ok (get_mark c.symbols n) (value_of e n) ≡ true
  pub own_free : get_mark c.symbols own ≡ none
  pub closed : (n : String) → known e n (get_mark c.symbols n) ≡ true

Fits-add_clause :
    (e : Engine) (new : ℕ) (own : String) (d c : Clause)
    → Fits e new own c
    → Fits (add_clause d e) new own c
unfolding add_clause value_of known
Fits-add_clause e new own d c f = record {
  exact = f.exact;
  owner = f.owner;
  agree = f.agree;
  own_free = f.own_free;
  closed = f.closed;
}

module _ (new : ℕ) (own : String) (c : Clause) (rest : List Clause) (e : Engine)
    (a : Adding new own (c ∷ rest) e) (f : Fits e new own c) where
  Shape-add_clause : Shape (add_clause c e)
  unfolding add_clause
  Shape-add_clause = record {
    owned = λ i h. ground (arith, f.owner, a.size, a.shape.owned i);
    listed = λ n i h. ground (
      arith,
      includes-index_clause e.clause_count c.symbols e.clauses_of n i,
      a.shape.listed n i,
      h,
    );
    indexed = λ n i h out. ground (
      arith,
      includes-index_clause e.clause_count c.symbols e.clauses_of n i,
      a.shape.indexed n i,
      out,
    );
    named = a.shape.named;
    earlier =
        λ i j h hj le. ground (arith, a.shape.earlier i j, f.owner, a.size, a.name, f.own_free);
  }

  counted-add_clause :
      (j : ℕ)
      → ((add_clause c e).symbols_by_id j).hold_count
        ≡ holding (add_clause c e).clause_count (add_clause c e).clause j
          + (if j == new then count_holding rest else 0)
  unfolding add_clause holding share count_holding
  counted-add_clause j = ground (
    arith,
    a.counted j,
    f.owner,
    holding-put_above e.clause_count e.clause e.clause_count c j (omega arith),
  )

  Adding-add_clause : Adding new own rest (add_clause c e)
  unfolding add_clause agrees value_of known
  Adding-add_clause = record {
    size = a.size;
    name = a.name;
    exact = λ i. ground (arith, a.exact i, f.exact);
    counted = counted-add_clause;
    value = a.value;
    shape = Shape-add_clause;
    agree = λ n i h. ground (arith, a.agree n i, f.agree n);
    closed = λ i n h. ground (arith, a.closed i n, f.closed n);
    spelled = a.spelled;
  }

pub Adding-add_clauses :
    (new : ℕ) (own : String) (cs : List Clause) (e : Engine)
    → Adding new own cs e
    → All (Fits e new own) cs
    → Adding new own [] (add_clauses cs e)
unfolding add_clauses
Adding-add_clauses new own [] e a fs = a
Adding-add_clauses new own (c ∷ cs) e a (cons f fs) =
    Adding-add_clauses new own cs (add_clause c e) (Adding-add_clause new own c cs e a f)
      (All-map (Fits-add_clause e new own c) fs)

pub add_clauses_kept :
    (cs : List Clause) (e : Engine)
    → ((add_clauses cs e).size ≡ e.size) × ((add_clauses cs e).values ≡ e.values)
unfolding add_clauses add_clause
add_clauses_kept [] e = (refl, refl)
add_clauses_kept (c ∷ cs) e = add_clauses_kept cs (add_clause c e)
