-- ===== src/Context/Engine/Pending.antt =====
-- Which literals of ContextInferenceEngine still have to be told the value of their symbol, and that
-- the step for one clause tells it and queues the symbol that the step changes.
use sctx.Context.Engine.{
  includes, Mark, wait_true, wait_false, met_true, met_false, Engine, Queue, get_mark, notify_mark,
  notify_symbol, settle_owner, update_clause, value_of,
}
use sctx.Context.Engine.Marks.{
  all_true, all_true-notify_symbol, get_mark-notify_symbol, notify_symbol-IsExact,
  owner-notify_symbol,
}
use sctx.Context.Engine.Invariant.{Inv, Named, settle_owner-Inv}
use sctx.Prelude.{
  ℕ, ◌<◌, ◌≤◌, String, ◌≡◌, subst, Bool, true, false, not, ◌||◌, ◌&&◌, Option, none, some, List, [],
  ◌∷◌, ◌==◌, str_eq, eq_iff, if◌then◌else◌, Bool-cases, ◌⊎◌, inl, inr, arith,
}
use sctx.Prelude.Options.{is_some}
use mathlib.Core.Option

-- A literal has the value that its mark says.
unfoldable pub mark_ok : Option Mark → Bool → Bool
mark_ok none v = true
mark_ok (some wait_true) v = not v
mark_ok (some wait_false) v = v
mark_ok (some met_true) v = v
mark_ok (some met_false) v = not v

unfoldable pub queued : Queue → String → Bool
queued [] n = false
queued (x ∷ q) n = str_eq x.1 n || queued q n

-- The literals named `n` of clause `i` agree with the value of the symbol.
unfoldable pub agrees : Engine → String → ℕ → Bool
unfolding mark_ok value_of
agrees e n i = mark_ok (get_mark (e.clause i).symbols n) (value_of e n)

mark_ok-told : (o : Option Mark) (v : Bool) → mark_ok (Option.map (λ m. notify_mark m v) o) v ≡ true
unfolding mark_ok notify_mark
mark_ok-told o v = ground arith

-- What the maps of the engine say of each other.
pub record Shape (e : Engine) : Type 0 where
  pub owned : (i : ℕ) → i < e.clause_count → (e.clause i).owner < e.size
  pub listed : (n : String) (i : ℕ) → includes (e.clauses_of n) i ≡ true → i < e.clause_count
  pub indexed :
      (n : String) (i : ℕ)
      → i < e.clause_count
      → includes (e.clauses_of n) i ≡ false
      → get_mark (e.clause i).symbols n ≡ none
  pub named : Named e
  pub earlier :
      (i j : ℕ)
      → i < e.clause_count
      → j < e.size
      → (e.clause i).owner ≤ j
      → get_mark (e.clause i).symbols (e.symbols_by_id j).name ≡ none

pub Shape-acyclic :
    (e : Engine)
    → Shape e
    → (i : ℕ) → i < e.clause_count
    → get_mark (e.clause i).symbols (e.symbols_by_id (e.clause i).owner).name ≡ none
Shape-acyclic e shape i h = shape.earlier i (e.clause i).owner h (shape.owned i h) (omega arith)

-- While the clauses `is` still have to be told the value of `name`.
abbrev pub Telling : String → List ℕ → Engine → Queue → Type 0
Telling name is e q =
    (n : String) (i : ℕ)
    → i < e.clause_count
    → ((if str_eq name n then includes is i else queued q n) || agrees e n i) ≡ true

-- The state in the loop over the clauses of `name`, with `is` left.
pub record Told (name : String) (is : List ℕ) (r : Engine × Queue) : Type 0 where
  pub inv : Inv r.0
  pub shape : Shape r.0
  pub telling : Telling name is r.0 r.1

module _ (name : String) (i : ℕ) (is : List ℕ) (e : Engine) (q : Queue) (shape : Shape e)
    (within : i < e.clause_count) where
  abbrev v : Bool
  v = value_of e name

  abbrev next : Engine × Queue
  next = update_clause name v e q i

  update_clause-Inv : Inv e → Inv next.0
  unfolding update_clause
  update_clause-Inv inv =
      settle_owner-Inv e q i (notify_symbol (e.clause i) name v) inv shape.named within
        (shape.owned i within) (owner-notify_symbol (e.clause i) name v)
        (notify_symbol-IsExact (e.clause i) name v (inv.exact i))

  pub value_of-update_clause : value_of next.0 name ≡ v
  unfolding update_clause settle_owner value_of notify_symbol
  value_of-update_clause =
      ground (
        arith,
        Shape-acyclic e shape i within,
        eq_iff (e.symbols_by_id (e.clause i).owner).name name,
      )

  pub static-update_clause : (next.0.size ≡ e.size) × (next.0.clause_count ≡ e.clause_count)
  unfolding update_clause settle_owner
  static-update_clause = ground arith

  pub names-update_clause : (j : ℕ) → (next.0.symbols_by_id j).name ≡ (e.symbols_by_id j).name
  unfolding update_clause settle_owner
  names-update_clause j = ground arith

  pub clauses_of-update_clause : (n : String) → next.0.clauses_of n ≡ e.clauses_of n
  unfolding update_clause settle_owner
  clauses_of-update_clause n = ground arith

  pub owners-update_clause : (j : ℕ) → (next.0.clause j).owner ≡ (e.clause j).owner
  unfolding update_clause settle_owner
  owners-update_clause j = ground (arith, owner-notify_symbol (e.clause i) name v)

  pub meaning-update_clause :
      (j : ℕ) (val : String → Bool)
      → all_true val (next.0.clause j).symbols ≡ all_true val (e.clause j).symbols
  unfolding update_clause settle_owner
  meaning-update_clause j val = ground (arith, all_true-notify_symbol val (e.clause i) name v)

  pub keys-update_clause :
      (j : ℕ) (n : String)
      → get_mark (e.clause j).symbols n ≡ none
      → get_mark (next.0.clause j).symbols n ≡ none
  unfolding update_clause settle_owner
  keys-update_clause j n h = ground (arith, get_mark-notify_symbol (e.clause i) name n v)

  pub defined-update_clause :
      (n : String) → is_some (e.values n) ≡ true → is_some (next.0.values n) ≡ true
  unfolding update_clause settle_owner
  defined-update_clause n h = ground arith

  queued-update_clause :
      (n : String)
      → (queued next.1 n ≡ true)
        ⊎ ((queued next.1 n ≡ queued q n) × (value_of next.0 n ≡ value_of e n))
  unfolding update_clause settle_owner queued value_of
  queued-update_clause n = ground (arith, eq_iff (e.symbols_by_id (e.clause i).owner).name n)

  marks-update_clause :
      (j : ℕ) (n : String)
      → get_mark (next.0.clause j).symbols n ≡ (
          if (j == i) && str_eq name n
          then Option.map (λ m. notify_mark m v) (get_mark (e.clause j).symbols n)
          else get_mark (e.clause j).symbols n)
  unfolding update_clause settle_owner
  marks-update_clause j n = ground (arith, get_mark-notify_symbol (e.clause i) name n v)

  Telling-update_clause : Telling name (i ∷ is) e q → Telling name is next.0 next.1
  unfolding agrees includes
  Telling-update_clause t n j h =
      let told = t n j (subst (λ k. j < k) static-update_clause.1 h) in
      elim (Bool-cases (str_eq name n)) [
        | inl same ↦ ground (
          arith,
          told,
          marks-update_clause j n,
          value_of-update_clause,
          eq_iff name n,
          mark_ok-told (get_mark (e.clause j).symbols n) v,
        )
        | inr other ↦ ground (arith, told, marks-update_clause j n, queued-update_clause n)
      ]

  update_clause-Shape : Shape next.0
  update_clause-Shape = record {
    owned = λ j h. ground (
      arith,
      shape.owned j (subst (λ k. j < k) static-update_clause.1 h),
      static-update_clause,
      owners-update_clause j,
    );
    listed = λ n j h. ground (
      arith,
      shape.listed n j (subst (λ is. includes is j ≡ true) (clauses_of-update_clause n) h),
      static-update_clause,
    );
    indexed = λ n j h out. keys-update_clause j n (
        shape.indexed n j (subst (λ k. j < k) static-update_clause.1 h)
          (subst (λ is. includes is j ≡ false) (clauses_of-update_clause n) out));
    named = λ j k hj hk same. ground (
      arith,
      shape.named j k,
      names-update_clause j,
      names-update_clause k,
      static-update_clause,
    );
    earlier = λ j k h hk le. ground (
      arith,
      keys-update_clause j (e.symbols_by_id k).name,
      shape.earlier j k,
      owners-update_clause j,
      names-update_clause k,
      static-update_clause,
    );
  }

  pub update_clause-Told : Told name (i ∷ is) (e, q) → Told name is next
  update_clause-Told t = record {
    inv = update_clause-Inv t.inv;
    shape = update_clause-Shape;
    telling = Telling-update_clause t.telling;
  }
