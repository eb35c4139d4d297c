-- ===== src/Context/Engine/Parse/Accepted.antt =====
-- Which lines parse of ContextInferenceEngine takes.
use sctx.Context.Engine.{Clause, Engine}
use sctx.Context.Engine.Parse.{
  no_clause, resolve, unsigned, add_literal, parse_literals, parse_clause, parse_clauses,
  parse_name, parse_tokens, parse,
}
use sctx.Context.Engine.Parse.Valid.{Valid, no_repeats, Parsed, IsParsed, parse-Parsed}
use sctx.Context.Text.{has_at, has_dollar, negated, qualify, tokens}
use sctx.Prelude.{
  String, ◌≡◌, refl, Bool, true, false, not, ◌||◌, ◌&&◌, Option, none, some, List, [], ◌∷◌, str_eq,
  arith, Option-cases, inl, inr, sym,
}
use sctx.Prelude.Options.{is_some}

module _ (decode : String → Option String) (nspc : String) (e : Engine) where
  -- A system name, or a symbol of the namespace that is known and is not `own`.
  unfoldable pub is_name : String → String → Bool
  is_name own n =
      not (has_dollar n)
      && (has_at n || (is_some (e.values (qualify nspc n)) && not (str_eq (qualify nspc n) own)))

  unfoldable pub is_literal : String → String → Bool
  unfolding is_name
  is_literal own t = elim (decode t) [ none ↦ false | some item ↦ is_name own (unsigned item) ]

  unfoldable pub all_literals : String → List String → Bool
  unfolding is_literal
  all_literals own [] = true
  all_literals own (t ∷ ts) = is_literal own t && all_literals own ts

  unfoldable pub all_clauses : String → List String → Bool
  unfolding all_literals
  all_clauses own [] = true
  all_clauses own (t ∷ ts) = all_literals own (tokens b'+' t) && all_clauses own ts

  -- The name of a rule: it has no sign of a system name or a namespace, and is not taken.
  unfoldable pub is_new : String → Bool
  is_new name =
      not (has_at name) && (not (has_dollar name) && not (is_some (e.values (qualify nspc name))))

  -- A name that is new, and clauses whose literals are all known.
  unfoldable pub is_rule : List String → Bool
  unfolding is_new all_clauses
  is_rule [] = false
  is_rule (t ∷ ts) = elim (decode t) [
    | none ↦ false
    | some name ↦ is_new name && all_clauses (qualify nspc name) ts
  ]

  resolve_some : (own n : String) → is_some (resolve e nspc own n) ≡ is_name own n
  unfolding resolve is_name
  resolve_some own n = ground arith

  literals_some :
      (own : String) (ts : List String) (c : Clause)
      → is_some (parse_literals decode e nspc own ts c) ≡ all_literals own ts
  unfolding parse_literals all_literals is_literal
  literals_some own [] c = refl
  literals_some own (t ∷ ts) c = elim (Option-cases (decode t)) [
    | inl bad ↦ ground (arith, bad)
    | inr (item, good) ↦ elim (Option-cases (resolve e nspc own (unsigned item))) [
      | inl unknown ↦ ground (arith, good, unknown, resolve_some own (unsigned item))
      | inr (name, found) ↦ ground (
        arith,
        good,
        found,
        resolve_some own (unsigned item),
        literals_some own ts (add_literal e c name (not (is_some (negated item)))),
      )
    ]
  ]

  clauses_some :
      (own : String) (ts : List String)
      → is_some (parse_clauses decode e nspc own ts) ≡ all_clauses own ts
  unfolding parse_clauses all_clauses parse_clause
  clauses_some own [] = refl
  clauses_some own (t ∷ ts) =
      let first = literals_some own (tokens b'+' t) (record no_clause { owner = e.size }) in
      elim (Option-cases (parse_clause decode e nspc own t)) [
        | inl bad ↦ ground (arith, bad, first)
        | inr (c, good) ↦ ground (arith, good, first, clauses_some own ts)
      ]

  tokens_some : (ts : List String) → is_some (parse_tokens decode nspc ts e) ≡ is_rule ts
  unfolding parse_tokens is_rule parse_name is_new
  tokens_some [] = refl
  tokens_some (t ∷ ts) = elim (Option-cases (decode t)) [
    | inl bad ↦ ground (arith, bad)
    | inr (name, good) ↦ ground (arith, good, clauses_some (qualify nspc name) ts)
  ]

  -- What is left of a line that is a rule or not.
  abbrev pub IsTaken : Bool → Option Engine → Type 0
  IsTaken rule none = rule ≡ false
  IsTaken rule (some e') = (rule ≡ true) × Parsed e e'

  taken : (rule : Bool) (o : Option Engine) → is_some o ≡ rule → IsParsed e o → IsTaken rule o
  taken rule none h parsed = sym h
  taken rule (some e') h parsed = (sym h, parsed)

  -- On a valid engine, in a namespace without "@" and where no clause of the line has two literals
  -- of one name: parse takes a line exactly when its first token is a new name and each literal of
  -- each clause is a system name or another symbol of the namespace that is known. It then gives a
  -- valid engine with one symbol more, in which no value that was there has changed.
  pub parse-IsTaken :
      (line : String)
      → Valid e
      → has_at nspc ≡ false
      → no_repeats decode nspc line e ≡ true
      → IsTaken (is_rule (tokens b',' line)) (parse decode nspc line e)
  unfolding parse
  parse-IsTaken line valid plain distinct =
      taken (is_rule (tokens b',' line)) (parse decode nspc line e) (tokens_some (tokens b',' line))
        (parse-Parsed decode nspc e valid plain line distinct)
