-- ===== src/Context/Engine/Update.antt =====
-- updateSystemSymbol of ContextInferenceEngine as a whole: its fuel, and the engine that it leaves.
use sctx.Context.Engine.Truth.{one_true, one_true-same, value-one_true}
use sctx.Context.Engine.{
  Engine, get_mark, put_value, bool_eq, value_of, is_last, update_system_symbol,
}
use sctx.Context.Engine.Pending.{mark_ok, queued, agrees}
use sctx.Context.Engine.Order.{fits, all_fit}
use sctx.Context.Engine.Loop.End.{update_loop-Ended}
use sctx.Context.Engine.Loop.{Consistent, Ready}
use sctx.Context.Engine.Names.{all_named, distinct_names}
use sctx.Context.Engine.Round.{load, Fixed}
use sctx.Prelude.Options.{is_some}
use sctx.Prelude.{
  ℕ, zero, suc, ◌+◌, ◌<◌, ◌≤◌, String, ◌≡◌, refl, sym, subst, Bool, true, false, Option, none, some,
  List, [], ◌∷◌, str_eq, eq_iff, eq_refl, Bool-cases, ◌⊎◌, inl, inr, arith,
}

-- The symbol of a key of the queue: the system symbol has the key 0.
unfoldable pub key_name : Engine → String → ℕ → String
key_name e name zero = name
key_name e name (suc j) = (e.symbols_by_id j).name

-- Two rounds and, for the system symbol and for each symbol once, one for each clause that it
-- affects.
unfoldable pub enough_fuel : Engine → String → ℕ
unfolding load key_name
enough_fuel e name = 2 + load (λ k. e.clauses_of (key_name e name k)) (suc e.size)

-- What an update of `e` leaves: `name` has the value that was set, the symbols and their names are
-- the same, and each symbol has the value that the clauses of `e` give it.
pub record Updated (e : Engine) (name : String) (value : Bool) (o : Option (Engine × List String))
    : Type 0 where
  pub engine : Engine
  pub modified : List String
  pub returned : o ≡ some (engine, modified)
  pub consistent : Consistent engine
  pub set : value_of engine name ≡ value
  pub size : engine.size ≡ e.size
  pub names : (j : ℕ) → (engine.symbols_by_id j).name ≡ (e.symbols_by_id j).name
  pub truth :
      (j : ℕ)
      → j < e.size
      → engine.values (e.symbols_by_id j).name
        ≡ some (one_true (value_of engine) e j e.clause_count)
  pub count : engine.clause_count ≡ e.clause_count
  pub keys :
      (i : ℕ) (n : String)
      → get_mark (e.clause i).symbols n ≡ none
      → get_mark (engine.clause i).symbols n ≡ none
  pub defined : (n : String) → is_some (e.values n) ≡ true → is_some (engine.values n) ≡ true
  pub root : (modified ≡ []) ⊎ (engine.values name ≡ some value)
  pub listed : all_named (key_name e name) (suc e.size) modified ≡ true
  pub once : distinct_names modified ≡ true

module _ (system : String → Bool) (e : Engine) (name : String) (value : Bool) (c : Consistent e)
    (apart : (j : ℕ) → j < e.size → system (e.symbols_by_id j).name ≡ false)
    (is_system : system name ≡ true) where
  abbrev started : Engine
  started = record e { values = put_value e.values name value }

  name-apart :
      (j : ℕ) → j < e.size → str_eq (key_name e name zero) (key_name e name (suc j)) ≡ false
  unfolding key_name
  name-apart j h = ground (arith, apart j h, eq_iff name (e.symbols_by_id j).name)

  started-Ready :
      Ready
        (key_name e name)
        e.size
        (λ k. e.clauses_of (key_name e name k))
        (some value)
        e
        name-apart
        0
        none
        ((0, name) ∷ [])
        started
  unfolding key_name agrees value_of is_last queued all_fit fits mark_ok
  started-Ready = record {
    inv = record {
      exact = c.inv.exact;
      counted = c.inv.counted;
      value = λ j h. ground (arith, c.inv.value j h, name-apart j h);
    };
    shape = record {
      owned = c.shape.owned;
      listed = c.shape.listed;
      indexed = c.shape.indexed;
      named = c.shape.named;
      earlier = c.shape.earlier;
    };
    fixed = record {
      known = (refl, λ j. refl);
      lists = λ k. refl;
      root = ground (arith, eq_refl name);
      count = refl;
      owners = λ i. refl;
      meaning = λ i val. refl;
      keys = λ i n absent. absent;
      defined = λ n h. ground arith;
    };
    pending = λ n i h. ground (arith, c.agree n i h);
    settled = λ n i same h. ground arith;
    fit = ground (arith, eq_refl name);
  }

  truth-Fixed :
      (e' : Engine) (j : ℕ)
      → j < e.size
      → Consistent e'
      → Fixed (key_name e name) e.size (λ k. e.clauses_of (key_name e name k)) (some value) e e'
      → e'.values (e.symbols_by_id j).name ≡ some (one_true (value_of e') e j e.clause_count)
  unfolding key_name
  truth-Fixed e' j h kept f = ground (
    arith,
    value-one_true e' j kept (subst (λ k. j < k) (sym f.known.0) h),
    f.known.1 j,
    f.count,
    one_true-same (value_of e') e e' j e.clause_count f.owners (λ i. f.meaning i (value_of e')),
  )

  -- In a consistent engine whose own symbols have no system names, updateSystemSymbol of a system
  -- name ends, with the fuel of two rounds and, for the name and for each symbol once, one round for
  -- each clause that it affects. It leaves a consistent engine with the same names of symbols, in
  -- which the name has the value that was set, and every symbol is true exactly when, with the
  -- values of that engine, one of the clauses that it had before has only true literals.
  pub update_system_symbol-Updated :
      (fuel : ℕ)
      → enough_fuel e name ≤ fuel
      → Updated e name value (update_system_symbol system fuel e name value)
  unfolding update_system_symbol enough_fuel load bool_eq key_name value_of all_named distinct_names
  update_system_symbol-Updated fuel h = elim (Bool-cases (bool_eq (value_of e name) value)) [
    | inl same ↦ record {
      engine = e;
      modified = [];
      returned = ground (arith, same, is_system);
      consistent = c;
      set = ground (arith, same);
      size = refl;
      names = λ j. refl;
      truth = λ j h. value-one_true e j c h;
      count = refl;
      keys = λ i n absent. absent;
      defined = λ n there. there;
      root = inl refl;
      listed = refl;
      once = refl;
    }
    | inr other ↦
        let ended =
          update_loop-Ended (key_name e name) e.size (λ k. e.clauses_of (key_name e name k))
            (some value) e name-apart fuel 0 none ((0, name) ∷ []) started [] (omega (arith, h))
            (omega arith) started-Ready refl refl in
        record {
          engine = ended.engine;
          modified = ended.modified;
          returned = ground (arith, other, is_system, ended.returned);
          consistent = ended.consistent;
          set = ground (arith, ended.fixed.root);
          size = ended.fixed.known.0;
          names = λ j. sym (ended.fixed.known.1 j);
          truth = λ j h. truth-Fixed ended.engine j h ended.consistent ended.fixed;
          count = ended.fixed.count;
          keys = ended.fixed.keys;
          defined = ended.fixed.defined;
          root = inr ended.fixed.root;
          listed = ended.listed;
          once = ended.once;
        }
  ]
