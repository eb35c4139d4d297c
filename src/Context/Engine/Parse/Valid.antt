-- ===== src/Context/Engine/Parse/Valid.antt =====
-- The invariant of ContextInferenceEngine, under parse.
use sctx.Context.Engine.{Clause, Engine, get_mark, value_of}
use sctx.Context.Engine.Counts.{holding-owned}
use sctx.Context.Engine.Invariant.{Named}
use sctx.Context.Engine.Loop.{Consistent}
use sctx.Context.Engine.Parse.{
  count_holding, add_clauses, add_symbol, parse_name, parse_clauses, parse_tokens, parse,
}
use sctx.Context.Engine.Parse.Good.{known, Good, All, All-map}
use sctx.Context.Engine.Parse.Literals.{all_distinct, AreGoodResults, parse_clauses-Good}
use sctx.Context.Engine.Parse.Adding.{
  Adding, Fits, Adding-add_clauses, add_clauses_kept, Spelled, Closed,
}
use sctx.Context.Engine.Pending.{mark_ok, agrees, Shape}
use sctx.Context.Text.{has_at, has_dollar, tokens}
use sctx.Context.Text.Laws.{has_dollar-qualify, has_at-qualify}
use sctx.Prelude.{
  ℕ, suc, ◌<◌, String, ◌≡◌, refl, Bool, true, false, Option, none, some, List, [], ◌∷◌, str_eq,
  eq_iff, eq_refl, arith, Option-cases, inl, inr,
}
use sctx.Prelude.Options.{◌>>=◌, is_some}

pub record Valid (e : Engine) : Type 0 where
  pub consistent : Consistent e
  pub closed : Closed e
  pub spelled : Spelled e

module _ (e : Engine) (valid : Valid e) (own : String) (cs : List Clause)
    (fresh : is_some (e.values own) ≡ false) (dollar : has_dollar own ≡ true)
    (at : has_at own ≡ false) where
  abbrev next : Engine
  next = add_symbol own cs e

  new_name : (j : ℕ) → j < e.size → str_eq own (e.symbols_by_id j).name ≡ false
  new_name j h =
      ground (arith, valid.consistent.inv.value j h, fresh, eq_iff own (e.symbols_by_id j).name)

  unused : (i : ℕ) → i < e.clause_count → get_mark (e.clause i).symbols own ≡ none
  unfolding known
  unused i h = ground (arith, valid.closed i own h, fresh, dollar)

  next-Named : Named next
  unfolding add_symbol
  next-Named j k hj hk same = ground (
    arith,
    new_name j,
    new_name k,
    valid.consistent.shape.named j k,
    eq_iff (e.symbols_by_id j).name own,
  )

  next-Shape : Shape next
  unfolding add_symbol
  next-Shape =
      let shape = valid.consistent.shape in
      record {
        owned = λ i h. omega (arith, shape.owned i h);
        listed = shape.listed;
        indexed = shape.indexed;
        named = next-Named;
        earlier = λ i j h hj le. ground (arith, shape.earlier i j h, unused i h);
      }

  Adding-add_symbol : Adding e.size own cs next
  unfolding add_symbol agrees value_of mark_ok known
  Adding-add_symbol = record {
    size = refl;
    name = ground arith;
    exact = valid.consistent.inv.exact;
    counted = λ j. ground (
      arith,
      valid.consistent.inv.counted j,
      holding-owned e.clause_count e.size e.clause valid.consistent.shape.owned,
    );
    value = λ j h. ground (arith, valid.consistent.inv.value j, new_name j, eq_refl own);
    shape = next-Shape;
    agree = λ n i h. ground (arith, valid.consistent.agree n i h, unused i h, eq_iff own n);
    closed = λ i n h. ground (arith, valid.closed i n h);
    spelled = λ j h. ground (arith, valid.spelled j, dollar, at);
  }

  Fits-Good : (c : Clause) → Good e own c → Fits next e.size own c
  unfolding add_symbol value_of mark_ok known
  Fits-Good c good = record {
    exact = good.exact;
    owner = good.owner;
    agree = λ n. ground (arith, good.agree n, good.own_free, eq_iff own n);
    own_free = good.own_free;
    closed = λ n. ground (arith, good.closed n);
  }

Valid-Adding : (new : ℕ) (own : String) (e : Engine) → Adding new own [] e → Valid e
unfolding count_holding
Valid-Adding new own e a = record {
  consistent = record {
    inv = record { exact = a.exact; counted = λ j. ground (arith, a.counted j); value = a.value };
    shape = a.shape;
    agree = a.agree;
  };
  closed = a.closed;
  spelled = a.spelled;
}

-- What parse makes of `e`, or none where it returns null.
pub record Parsed (e : Engine) (e' : Engine) : Type 0 where
  pub valid : Valid e'
  pub size : e'.size ≡ suc e.size
  pub kept : (n : String) → is_some (e.values n) ≡ true → e'.values n ≡ e.values n
  pub system : (n : String) → has_at n ≡ true → e'.values n ≡ e.values n

abbrev pub IsParsed : Engine → Option Engine → Type 0
IsParsed e none = Unit
IsParsed e (some e') = Parsed e e'

module _ (decode : String → Option String) (nspc : String) where
  distinct_tokens : List String → Engine → Bool
  unfolding all_distinct
  distinct_tokens [] e = true
  distinct_tokens (t ∷ ts) e = elim (parse_name decode nspc e t) [
    | none ↦ true
    | some own ↦ all_distinct decode e nspc own ts
  ]

  -- No clause of the rule has two literals of one name.
  unfoldable pub no_repeats : String → Engine → Bool
  unfolding distinct_tokens tokens
  no_repeats line e = distinct_tokens (tokens b',' line) e

  module _ (e : Engine) (valid : Valid e) (plain : has_at nspc ≡ false) where
    parse_name_fresh :
        (token own : String)
        → parse_name decode nspc e token ≡ some own
        → (is_some (e.values own) ≡ false) × (has_dollar own ≡ true) × (has_at own ≡ false)
    unfolding parse_name
    parse_name_fresh token own found = elim (Option-cases (decode token)) [
      | inl bad ↦ ground (arith, found, bad)
      | inr (name, good) ↦
          ground (arith, found, good, has_dollar-qualify nspc name, has_at-qualify nspc name plain)
    ]

    module _ (own : String)
        (free : (is_some (e.values own) ≡ false)
          × (has_dollar own ≡ true)
          × (has_at own ≡ false)) where
      Parsed-add_clauses :
          (cs : List Clause) → All (Good e own) cs → Parsed e (add_clauses cs (add_symbol own cs e))
      unfolding add_symbol
      Parsed-add_clauses cs good =
          let e' = add_symbol own cs e in
          record {
            valid = Valid-Adding e.size own (add_clauses cs e') (
                Adding-add_clauses e.size own cs e'
                  (Adding-add_symbol e valid own cs free.0 free.1 free.2)
                  (All-map (Fits-Good e valid own cs free.0 free.1 free.2) good));
            size = (add_clauses_kept cs e').0;
            system = λ n h. ground (arith, add_clauses_kept cs e', eq_iff own n, free.2);
            kept = λ n h. ground (arith, add_clauses_kept cs e', eq_iff own n, free.0);
          }

      clauses-Parsed :
          (o : Option (List Clause))
          → AreGoodResults decode e nspc own o
          → IsParsed e (o >>= λ cs. some (add_clauses cs (add_symbol own cs e)))
      clauses-Parsed none good = tt
      clauses-Parsed (some cs) good = Parsed-add_clauses cs good

    named-Parsed :
        (t : String) (ts : List String) (o : Option String)
        → parse_name decode nspc e t ≡ o
        → elim o [ none ↦ true | some own ↦ all_distinct decode e nspc own ts ] ≡ true
        → IsParsed e (
            o >>= λ own. parse_clauses decode e nspc own ts >>= λ cs.
            some (add_clauses cs (add_symbol own cs e)))
    named-Parsed t ts none found d = tt
    named-Parsed t ts (some own) found d =
        let free = parse_name_fresh t own found in
        clauses-Parsed own free (parse_clauses decode e nspc own ts)
          (parse_clauses-Good decode e nspc own ts free.1 d)

    parse_tokens-Parsed :
        (ts : List String)
        → distinct_tokens ts e ≡ true
        → IsParsed e (parse_tokens decode nspc ts e)
    unfolding parse_tokens distinct_tokens
    parse_tokens-Parsed [] d = tt
    parse_tokens-Parsed (t ∷ ts) d = named-Parsed t ts (parse_name decode nspc e t) refl d

    -- In a namespace without "@", parse keeps a valid engine valid where no clause of the rule has
    -- two literals of one name. A rule that is taken adds one symbol and changes no value that was
    -- there.
    pub parse-Parsed :
        (line : String) → no_repeats line e ≡ true → IsParsed e (parse decode nspc line e)
    unfolding parse no_repeats
    parse-Parsed line d = parse_tokens-Parsed (tokens b',' line) d
