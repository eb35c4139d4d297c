-- ===== src/Context/Engine/Reach.antt =====
-- The engines that ContextInferenceEngine can come to from init, by rules and by updates.
use sctx.Context.Engine.{includes, Engine, value_of, update_system_symbol}
use sctx.Context.Engine.Counts.{holding}
use sctx.Context.Engine.Marks.{unmet, unique}
use sctx.Context.Engine.Parse.{init, parse}
use sctx.Context.Engine.Parse.Good.{known}
use sctx.Context.Engine.Parse.Valid.{Valid, no_repeats, IsParsed, parse-Parsed}
use sctx.Context.Engine.Truth.{one_true, value-one_true}
use sctx.Context.Engine.Update.{enough_fuel, Updated, update_system_symbol-Updated}
use sctx.Context.Text.{has_at}
use sctx.Prelude.{
  ℕ, ◌<◌, String, ◌≡◌, refl, Bool, true, false, Option, some, List, [], arith, subst, Bool-cases,
  inl, inr,
}

pub init-Valid : Valid init
unfolding unmet unique holding includes
init-Valid = record {
  consistent = record {
    inv = record {
      exact = λ i. (refl, refl);
      counted = λ j. refl;
      value = λ j h. absurd (omega (arith, h));
    };
    shape = record {
      owned = λ i h. absurd (omega (arith, h));
      listed = λ n i h. ground (arith, h);
      indexed = λ n i h out. absurd (omega (arith, h));
      named = λ j k hj hk same. absurd (omega (arith, hj));
      earlier = λ i j h hj le. absurd (omega (arith, h));
    };
    agree = λ n i h. absurd (omega (arith, h));
  };
  closed = λ i n h. absurd (omega (arith, h));
  spelled = λ j h. absurd (omega (arith, h));
}

module _ (e : Engine) (valid : Valid e) (name : String) (value : Bool)
    (o : Option (Engine × List String)) (u : Updated e name value o) where
  pub updated-Valid : Valid u.engine
  unfolding known
  updated-Valid = record {
    consistent = u.consistent;
    closed = λ i n h.
        ground (arith, valid.closed i n (subst (λ c. i < c) u.count h), u.keys i n, u.defined n);
    spelled = λ j h. ground (arith, valid.spelled j, u.names j, u.size);
  }

-- A result that is known twice.
same_engine :
    (o : Option (Engine × List String)) (r s : Engine × List String)
    → o ≡ some r
    → o ≡ some s
    → r.0 ≡ s.0
same_engine o r s h h' = ground (arith, h, h')

-- A step of the engine. `decode` is Util.decodeURLString.
pub data Step (decode : String → Option String) (e e' : Engine) : Type 0 where
  -- A rule of a namespace without "@", in which no clause has two literals of one name.
  parsed :
      (nspc line : String)
      → has_at nspc ≡ false
      → no_repeats decode nspc line e ≡ true
      → parse decode nspc line e ≡ some e'
      → Step decode e e'
  -- An update of any name.
  updated :
      (name : String) (value : Bool) (modified : List String)
      → update_system_symbol has_at (enough_fuel e name) e name value ≡ some (e', modified)
      → Step decode e e'

pub plain_update :
    (e : Engine) (name : String) (value : Bool)
    → has_at name ≡ false
    → update_system_symbol has_at (enough_fuel e name) e name value ≡ some (e, [])
unfolding update_system_symbol
plain_update e name value plain = ground (arith, plain)

updated-Step-Valid :
    (e e' : Engine) (name : String) (value : Bool) (modified : List String)
    → Valid e
    → update_system_symbol has_at (enough_fuel e name) e name value ≡ some (e', modified)
    → Valid e'
updated-Step-Valid e e' name value modified valid ran =
    let o = update_system_symbol has_at (enough_fuel e name) e name value in
    elim (Bool-cases (has_at name)) [
      | inl is_system ↦
          let u =
            update_system_symbol-Updated has_at e name value valid.consistent
              (λ j h. (valid.spelled j h).1) is_system (enough_fuel e name) (omega arith) in
          subst Valid (same_engine o (u.engine, u.modified) (e', modified) u.returned ran)
            (updated-Valid e valid name value o u)
      | inr plain ↦
          subst Valid (same_engine o (e, []) (e', modified) (plain_update e name value plain) ran)
            valid
    ]

Step-Valid :
    {decode : String → Option String} {e e' : Engine} → Step decode e e' → Valid e → Valid e'
Step-Valid {decode} {e} {e'} (parsed nspc line plain distinct ran) valid =
    (subst (IsParsed e) ran (parse-Parsed decode nspc e valid plain line distinct)).valid
Step-Valid {decode} {e} {e'} (updated name value modified ran) valid =
    updated-Step-Valid e e' name value modified valid ran

-- The engines that the steps reach from init.
pub data Reached (decode : String → Option String) : Engine → Type 0 where
  fresh : Reached decode init
  stepped : {e e' : Engine} → Reached decode e → Step decode e e' → Reached decode e'

pub Reached-Valid : (decode : String → Option String) (e : Engine) → Reached decode e → Valid e
Reached-Valid decode e fresh = init-Valid
Reached-Valid decode e (stepped {e = e0} r step) = Step-Valid step (Reached-Valid decode e0 r)

-- In every engine that rules and updates reach from init, where no namespace has "@" and no clause
-- two literals of one name, every symbol has a value, which is true exactly when one of its clauses
-- has only true literals.
pub Reached-true :
    (decode : String → Option String) (e : Engine) (j : ℕ)
    → Reached decode e
    → j < e.size
    → e.values (e.symbols_by_id j).name ≡ some (one_true (value_of e) e j e.clause_count)
Reached-true decode e j r h = value-one_true e j (Reached-Valid decode e r).consistent h
