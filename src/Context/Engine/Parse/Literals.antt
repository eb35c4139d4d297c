-- ===== src/Context/Engine/Parse/Literals.antt =====
-- The clause that parseClause of ContextInferenceEngine builds, and the engine that it is for.
use sctx.Context.Engine.{Clause, Engine, get_mark}
use sctx.Context.Engine.Marks.{unmet, unique}
use sctx.Context.Engine.Parse.{
  no_clause, resolve, unsigned, add_literal, parse_literals, parse_clause, parse_clauses,
}
use sctx.Context.Engine.Pending.{mark_ok}
use sctx.Context.Text.{has_dollar, negated, tokens}
use sctx.Prelude.{
  String, ◌≡◌, refl, Bool, true, not, ◌&&◌, Option, none, some, List, [], ◌∷◌, arith,
}
use sctx.Prelude.Options.{◌>>=◌, is_some}
use sctx.Context.Engine.Parse.Good.{known, Good, add_literal-Good, resolve-known, All, nil, cons}

module _ (decode : String → Option String) (e : Engine) (nspc own : String) where
  unfoldable pub literal_name : String → Option String
  unfolding unsigned
  literal_name t = do item ← decode t; resolve e nspc own (unsigned item)

  -- No literal of the tokens has the name of one before it.
  unfoldable pub distinct : List String → Clause → Bool
  unfolding literal_name
  distinct [] c = true
  distinct (t ∷ ts) c = elim (decode t) [
    | none ↦ true
    | some item ↦ elim (resolve e nspc own (unsigned item)) [
      | none ↦ true
      | some name ↦
          not (is_some (get_mark c.symbols name))
          && distinct ts (add_literal e c name (not (is_some (negated item))))
    ]
  ]

  abbrev pub IsGoodResult : Option Clause → Type 0
  IsGoodResult none = Unit
  IsGoodResult (some c) = Good e own c

  module _ (own_named : has_dollar own ≡ true) where
    -- The steps of the loop for a token, with `rest` for the tokens after it.
    module _ (ts : List String)
        (rest : (c : Clause)
          → distinct ts c ≡ true
          → Good e own c
          → IsGoodResult (parse_literals decode e nspc own ts c))
        (c : Clause) (good : Good e own c) where
      named-Good :
          (item : String) (r : Option String)
          → resolve e nspc own (unsigned item) ≡ r
          → elim r [
            | none ↦ true
            | some name ↦
                not (is_some (get_mark c.symbols name))
                && distinct ts (add_literal e c name (not (is_some (negated item))))
          ]
            ≡ true
          → IsGoodResult (
              r >>= λ name.
              parse_literals decode e nspc own ts
                (add_literal e c name (not (is_some (negated item)))))
      named-Good item none found d = tt
      named-Good item (some name) found d =
          let free = resolve-known e nspc own (unsigned item) name own_named found in
          rest (add_literal e c name (not (is_some (negated item)))) (ground (arith, d)) (
            add_literal-Good e own c name (not (is_some (negated item))) good (ground (arith, d))
              free.0 free.1)

      decoded-Good :
          (o : Option String)
          → elim o [
            | none ↦ true
            | some item ↦ elim (resolve e nspc own (unsigned item)) [
              | none ↦ true
              | some name ↦
                  not (is_some (get_mark c.symbols name))
                  && distinct ts (add_literal e c name (not (is_some (negated item))))
            ]
          ]
            ≡ true
          → IsGoodResult (
              o >>= λ item. resolve e nspc own (unsigned item) >>= λ name.
              parse_literals decode e nspc own ts
                (add_literal e c name (not (is_some (negated item)))))
      decoded-Good none d = tt
      decoded-Good (some item) d = named-Good item (resolve e nspc own (unsigned item)) refl d

    parse_literals-Good :
        (ts : List String) (c : Clause)
        → distinct ts c ≡ true
        → Good e own c
        → IsGoodResult (parse_literals decode e nspc own ts c)
    unfolding parse_literals distinct
    parse_literals-Good [] c d good = good
    parse_literals-Good (t ∷ ts) c d good =
        decoded-Good ts (parse_literals-Good ts) c good (decode t) d

    abbrev pub empty_clause : Clause
    empty_clause = record no_clause { owner = e.size }

    parse_clause-Good :
        (text : String)
        → distinct (tokens b'+' text) empty_clause ≡ true
        → IsGoodResult (parse_clause decode e nspc own text)
    unfolding parse_clause unmet unique mark_ok known
    parse_clause-Good text d = parse_literals-Good (tokens b'+' text) empty_clause d (record {
      exact = (refl, refl);
      owner = refl;
      agree = λ n. refl;
      own_free = refl;
      closed = λ n. refl;
    })

  -- No clause of the texts has two literals of one name.
  unfoldable pub all_distinct : List String → Bool
  unfolding distinct tokens
  all_distinct [] = true
  all_distinct (t ∷ ts) =
      distinct (tokens b'+' t) (record no_clause { owner = e.size }) && all_distinct ts

  abbrev pub AreGoodResults : Option (List Clause) → Type 0
  AreGoodResults none = Unit
  AreGoodResults (some cs) = All (Good e own) cs

  both-Good :
      (o : Option Clause) (os : Option (List Clause))
      → IsGoodResult o
      → AreGoodResults os
      → AreGoodResults (o >>= λ c. os >>= λ cs. some (c ∷ cs))
  both-Good none os g gs = tt
  both-Good (some c) none g gs = tt
  both-Good (some c) (some cs) g gs = cons g gs

  pub parse_clauses-Good :
      (ts : List String)
      → has_dollar own ≡ true
      → all_distinct ts ≡ true
      → AreGoodResults (parse_clauses decode e nspc own ts)
  unfolding parse_clauses all_distinct
  parse_clauses-Good [] h d = nil
  parse_clauses-Good (t ∷ ts) h d =
      both-Good (parse_clause decode e nspc own t) (parse_clauses decode e nspc own ts)
        (parse_clause-Good h t (ground (arith, d))) (parse_clauses-Good ts h (ground (arith, d)))
