-- ===== src/Context/Engine/Round.antt =====
-- One round of the loop of updateSystemSymbol: a symbol's new value is told to all its clauses.
use sctx.Context.Engine.{Engine, Queue, get_mark, update_clause, update_clauses, value_of}
use sctx.Context.Engine.Marks.{all_true}
use sctx.Context.Engine.Pending.{
  keys-update_clause, defined-update_clause, owners-update_clause, meaning-update_clause, Told,
  update_clause-Told, static-update_clause, names-update_clause, clauses_of-update_clause,
  value_of-update_clause,
}
use sctx.Context.Engine.{includes}
use sctx.Context.Engine.Order.{
  all_fit, Names, all_fit-update_clause, length-update_clause, values-update_clause,
}
use sctx.Prelude.Options.{is_some}
use sctx.Prelude.{
  ℕ, zero, suc, ◌+◌, ◌<◌, ◌≤◌, String, ◌≡◌, sym, ◌∙◌, subst, Bool, true, false, Option, none, some,
  List, [], ◌∷◌, str_eq, arith, length,
}

-- The clauses named by the keys below `k`, counted once for each key.
unfoldable pub load : (ℕ → List ℕ) → ℕ → ℕ
load of zero = 0
load of (suc k) = load of k + length (of k)

pub load_mono : (of : ℕ → List ℕ) (j k : ℕ) → j ≤ k → load of j ≤ load of k
unfolding load
load_mono of j zero h = ground arith
load_mono of j (suc k) h = ground (arith, load_mono of j k)

includes-head : (i : ℕ) (is : List ℕ) → includes (i ∷ is) i ≡ true
unfolding includes
includes-head i is = ground arith

-- What the loop never changes, and the value of the system symbol, whose key is 0.
pub record Fixed (names : ℕ → String) (size : ℕ) (of : ℕ → List ℕ) (value : Option Bool)
    (start : Engine) (e : Engine) : Type 0 where
  pub known : Names names size e
  pub lists : (k : ℕ) → e.clauses_of (names k) ≡ of k
  pub root : e.values (names zero) ≡ value
  pub count : e.clause_count ≡ start.clause_count
  pub owners : (i : ℕ) → (e.clause i).owner ≡ (start.clause i).owner
  pub meaning :
      (i : ℕ) (val : String → Bool)
      → all_true val (e.clause i).symbols ≡ all_true val (start.clause i).symbols
  pub keys :
      (i : ℕ) (n : String)
      → get_mark (start.clause i).symbols n ≡ none
      → get_mark (e.clause i).symbols n ≡ none
  pub defined : (n : String) → is_some (start.values n) ≡ true → is_some (e.values n) ≡ true

module _ (names : ℕ → String) (size : ℕ) (of : ℕ → List ℕ) (value : Option Bool) (start : Engine)
    (apart : (j : ℕ) → j < size → str_eq (names zero) (names (suc j)) ≡ false) where
  -- The state while the clauses `is` of the symbol with key `k` are left.
  pub record Round (k : ℕ) (is : List ℕ) (r : Engine × Queue) : Type 0 where
    pub told : Told (names k) is r
    pub fixed : Fixed names size of value start r.0
    pub within : (i : ℕ) → includes is i ≡ true → i < r.0.clause_count
    pub fit : all_fit names size (suc k) (some (names k)) r.1 ≡ true

  Round-step :
      (k i : ℕ) (is : List ℕ) (e : Engine) (q : Queue)
      → k ≤ size
      → Round k (i ∷ is) (e, q)
      → Round k is (update_clause (names k) (value_of e (names k)) e q i)
  unfolding includes
  Round-step k i is e q h r =
      let n = names k in
      let shape = r.told.shape in
      let here = r.within i (ground arith) in
      let static = static-update_clause n i is e q shape here in
      record {
        told = update_clause-Told n i is e q shape here r.told;
        fixed = record {
          known = (
            static.0 ∙ r.fixed.known.0,
            λ j. r.fixed.known.1 j ∙ sym (names-update_clause n i is e q shape here j),
          );
          lists = λ m. clauses_of-update_clause n i is e q shape here (names m) ∙ r.fixed.lists m;
          root =
              values-update_clause names size k i e q shape here r.fixed.known h apart
              ∙ r.fixed.root;
          count = static.1 ∙ r.fixed.count;
          owners = λ j. owners-update_clause n i is e q shape here j ∙ r.fixed.owners j;
          meaning =
              λ j val. meaning-update_clause n i is e q shape here j val ∙ r.fixed.meaning j val;
          keys = λ j m h. keys-update_clause n i is e q shape here j m (r.fixed.keys j m h);
          defined = λ m h. defined-update_clause n i is e q shape here m (r.fixed.defined m h);
        };
        within = λ j m. subst (λ c. j < c) (sym static.1) (r.within j (ground arith));
        fit = all_fit-update_clause names size k i e q shape here r.fixed.known h r.fit;
      }

  pub Round-steps :
      (k : ℕ) (is : List ℕ) (e : Engine) (q : Queue) (v : Bool)
      → v ≡ value_of e (names k)
      → k ≤ size
      → Round k is (e, q)
      → Round k [] (update_clauses (names k) v is e q)
        × (length (update_clauses (names k) v is e q).1 ≤ length is + length q)
  unfolding update_clauses
  Round-steps k [] e q v hv h r = (r, omega arith)
  Round-steps k (i ∷ is) e q v hv h r =
      let n = names k in
      let shape = r.told.shape in
      let here = r.within i (includes-head i is) in
      let rest =
        Round-steps k is (update_clause n v e q i).0 (update_clause n v e q i).1 v
          (sym (
            subst (λ w. value_of (update_clause n w e q i).0 n ≡ w) (sym hv)
              (value_of-update_clause n i is e q shape here)))
          h
          (subst (λ w. Round k is (update_clause n w e q i)) (sym hv)
            (Round-step k i is e q h r)) in
      let shorter =
        subst (λ w. length (update_clause n w e q i).1 ≤ suc (length q)) (sym hv)
          (length-update_clause names size k i e q shape here r.fixed.known h) in
      (rest.0, omega (arith, rest.1, shorter))
