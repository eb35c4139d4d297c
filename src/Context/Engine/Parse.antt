-- ===== src/Context/Engine/Parse.antt =====
-- The rules of ContextInferenceEngine: parse, parseClause, init and parseReader. A rule names a
-- symbol and, after commas, its clauses; the literals of a clause stand between plus signs.
pub mod Good
pub mod Literals
pub mod Adding
pub mod Valid
pub mod Accepted
use sctx.Context.Engine.{
  Mark, wait_true, wait_false, met_true, met_false, Clause, ContextSymbol, Engine, includes, holds,
  put, put_value, value_of,
}
use sctx.Context.Text.{has_at, has_dollar, negated, qualify, tokens}
use sctx.Prelude.{
  ℕ, suc, ◌+◌, String, Bool, true, false, not, ◌&&◌, Option, none, some, List, [], ◌∷◌, ◌==◌,
  str_eq, if◌then◌else◌,
}
use sctx.Prelude.Options.{◌>>=◌, ◌>>◌, stop_if, is_some}

abbrev pub no_clause : Clause
no_clause = record { owner = 0; waiting_count = 0; symbols = [] }

-- init
abbrev pub init : Engine
init = record {
  values = λ n. none;
  clauses_of = λ n. [];
  symbols_by_id = λ j. record { name = ""; hold_count = 0 };
  size = 0;
  clause = λ i. no_clause;
  clause_count = 0;
}

-- The code of a literal: whether it is positive, and the value of its symbol.
unfoldable pub mark_of : Bool → Bool → Mark
mark_of true true = met_true
mark_of true false = wait_true
mark_of false false = met_false
mark_of false true = wait_false

unfoldable pub waits : Mark → Bool
waits wait_true = true
waits wait_false = true
waits _ = false

-- HashMap.put
unfoldable pub put_literal : List (String × Mark) → String → Mark → List (String × Mark)
put_literal [] k m = (k, m) ∷ []
put_literal ((j, n) ∷ s) k m = if str_eq j k then (j, m) ∷ s else (j, n) ∷ put_literal s k m

-- The symbol that an item of a clause stands for: a system symbol, or one of the namespace that is
-- known and is not `own`, the symbol of the rule.
unfoldable pub resolve : Engine → String → String → String → Option String
unfolding qualify
resolve e nspc own item = do
  stop_if (has_dollar item)
  if has_at item then some item else do
    stop_if (not (is_some (e.values (qualify nspc item))))
    stop_if (str_eq (qualify nspc item) own)
    some (qualify nspc item)

unfoldable pub unsigned : String → String
unfolding negated
unsigned item = elim (negated item) [ none ↦ item | some rest ↦ rest ]

unfoldable pub add_literal : Engine → Clause → String → Bool → Clause
unfolding mark_of waits put_literal value_of
add_literal e c name positive =
    let m = mark_of positive (value_of e name) in
    record c {
      waiting_count = if waits m then c.waiting_count + 1 else c.waiting_count;
      symbols = put_literal c.symbols name m;
    }

-- `decode` is Util.decodeURLString, none for its null, on which the parser ends by an exception.
module _ (decode : String → Option String) where
  -- The loop of parseClause, from the clause that it has built so far.
  unfoldable pub parse_literals : Engine → String → String → List String → Clause → Option Clause
  unfolding resolve unsigned add_literal negated
  parse_literals e nspc own [] c = some c
  parse_literals e nspc own (t ∷ ts) c = do
    item ← decode t
    name ← resolve e nspc own (unsigned item)
    parse_literals e nspc own ts (add_literal e c name (not (is_some (negated item))))

  unfoldable pub parse_clause : Engine → String → String → String → Option Clause
  unfolding parse_literals tokens
  parse_clause e nspc own text =
      parse_literals e nspc own (tokens b'+' text) (record no_clause { owner = e.size })

  unfoldable pub parse_clauses : Engine → String → String → List String → Option (List Clause)
  unfolding parse_clause
  parse_clauses e nspc own [] = some []
  parse_clauses e nspc own (t ∷ ts) = do
    c ← parse_clause e nspc own t
    cs ← parse_clauses e nspc own ts
    some (c ∷ cs)

-- `holdCount` of a new symbol.
unfoldable pub count_holding : List Clause → ℕ
unfolding holds
count_holding [] = 0
count_holding (c ∷ cs) = (if holds c then 1 else 0) + count_holding cs

-- `clauses.get(item).add(c)`, with the set made where it is absent.
unfoldable pub index_clause : ℕ → List (String × Mark) → (String → List ℕ) → String → List ℕ
unfolding includes
index_clause i [] f n = f n
index_clause i ((k, m) ∷ s) f n =
    let rest = index_clause i s f n in
    if str_eq k n && not (includes rest i) then i ∷ rest else rest

unfoldable pub add_clause : Clause → Engine → Engine
unfolding index_clause
add_clause c e = record e {
  clause = put e.clause e.clause_count c;
  clause_count = suc e.clause_count;
  clauses_of = index_clause e.clause_count c.symbols e.clauses_of;
}

unfoldable pub add_clauses : List Clause → Engine → Engine
unfolding add_clause
add_clauses [] e = e
add_clauses (c ∷ cs) e = add_clauses cs (add_clause c e)

unfoldable pub add_symbol : String → List Clause → Engine → Engine
unfolding count_holding
add_symbol name cs e = record e {
  symbols_by_id =
      put e.symbols_by_id e.size (record { name = name; hold_count = count_holding cs });
  size = suc e.size;
  values = put_value e.values name (not (count_holding cs == 0));
}

module _ (decode : String → Option String) (nspc : String) where
  -- The name of the rule's symbol, from the first token.
  unfoldable pub parse_name : Engine → String → Option String
  unfolding qualify
  parse_name e token = do
    name ← decode token
    stop_if (has_at name)
    stop_if (has_dollar name)
    stop_if (is_some (e.values (qualify nspc name)))
    some (qualify nspc name)

  parse_tokens : List String → Engine → Option Engine
  unfolding parse_name parse_clauses add_clauses add_symbol
  parse_tokens [] e = none
  parse_tokens (t ∷ ts) e = do
    name ← parse_name e t
    cs ← parse_clauses decode e nspc name ts
    some (add_clauses cs (add_symbol name cs e))

  -- parse, with none for null.
  unfoldable pub parse : String → Engine → Option Engine
  unfolding parse_tokens tokens
  parse line e = parse_tokens (tokens b',' line) e

  -- parseReader: a line that does not parse is only reported.
  unfoldable pub parse_lines : List String → Engine → Engine
  unfolding parse
  parse_lines [] e = e
  parse_lines (l ∷ ls) e = elim (parse l e) [
    | none ↦ parse_lines ls e
    | some e' ↦ parse_lines ls e'
  ]
