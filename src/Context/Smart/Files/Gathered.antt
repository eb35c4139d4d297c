-- ===== src/Context/Smart/Files/Gathered.antt =====
-- initContextEng as two steps: the rules of all files, and the engine that they make one after another.
use mathlib.Core.List.{◌++◌ as ◌+++◌}
use sctx.Context.Engine.{Engine}
use sctx.Context.Engine.Parse.{parse}
use sctx.Context.Smart.Files.{text_of, rule_file, open_rules}
use sctx.Prelude.{String, Option, none, some, List, [], ◌∷◌, map}
use sctx.Prelude.Options.{◌>>=◌}

module _ (decode : String → Option String)
    (own_file asset file : String → Option (List String)) where
  -- The rules of a file, each with the namespace.
  unfoldable pub rules_in : String × String → List (String × String)
  rules_in p = elim (decode p.1 >>= open_rules decode own_file asset file) [
    | none ↦ []
    | some ls ↦ map (λ l. (text_of (decode p.0), l)) ls
  ]

  -- Those of all files, up to a line of the list that names none.
  unfoldable pub listed_rules : List String → List (String × String)
  unfolding rules_in
  listed_rules [] = []
  listed_rules (l ∷ ls) = elim (rule_file l) [ none ↦ [] | some p ↦ rules_in p +++ listed_rules ls ]

  -- Each rule that parses changes the engine.
  unfoldable pub parse_all : List (String × String) → Engine → Engine
  parse_all [] e = e
  parse_all (r ∷ rs) e = elim (parse decode r.0 r.1 e) [
    | none ↦ parse_all rs e
    | some e' ↦ parse_all rs e'
  ]
