-- ===== src/Context/Smart/Files.antt =====
-- initContextEng of SmartContext: the files of rules that the engine is made from.
pub mod Gathered
use sctx.Context.Engine.{Engine}
use sctx.Context.Engine.Parse.{init, parse, parse_lines}
use sctx.Context.Engine.Parse.Valid.{Valid, IsParsed, no_repeats, parse-Parsed}
use sctx.Context.Engine.Reach.{init-Valid}
use sctx.Context.Text.{has_at, is_empty, split_first}
use sctx.Prelude.{
  String, ◌≡◌, refl, Bool, true, false, not, ◌&&◌, Option, none, some, List, [], ◌∷◌, arith, ◌∙◌,
}
use sctx.Prelude.Options.{◌>>=◌, ◌>>◌, stop_if}

-- A text in a concatenation, where Java writes null as "null".
abbrev pub text_of : Option String → String
text_of none = "null"
text_of (some s) = s

-- The namespace and the path of a line, none where the loop ends: no comma, or one that is the first
-- or the last character.
unfoldable pub rule_file : String → Option (String × String)
unfolding split_first is_empty
rule_file line = do
  p ← split_first b',' line
  stop_if (is_empty p.0)
  stop_if (is_empty p.1)
  some p

-- The engine before any native context is entered.
pub record Quiet (e : Engine) : Type 0 where
  pub valid : Valid e
  pub unset : (n : String) → has_at n ≡ true → e.values n ≡ none

-- `decode` is Util.decodeURLString. The others give the lines of a file, or none where it cannot be
-- opened: one of the application's own, one of its assets, and any other.
module _ (decode : String → Option String)
    (own_file asset file : String → Option (List String)) where
  unfoldable pub open_rules : String → Option (List String)
  open_rules path = elim (own_file path) [
    | some ls ↦ some ls
    | none ↦ elim (asset path) [ some ls ↦ some ls | none ↦ file path ]
  ]

  -- One line of the list of files. A path that is null is not opened.
  unfoldable pub read_file : String × String → Engine → Engine
  unfolding open_rules parse_lines
  read_file p e = elim (decode p.1 >>= open_rules) [
    | none ↦ e
    | some ls ↦ parse_lines decode (text_of (decode p.0)) ls e
  ]

  -- initContextEng. Nothing is put in its set of namespaces, so no line is passed over.
  unfoldable pub init_context_eng : List String → Engine → Engine
  unfolding rule_file read_file
  init_context_eng [] e = e
  init_context_eng (l ∷ ls) e = elim (rule_file l) [
    | none ↦ e
    | some p ↦ init_context_eng ls (read_file p e)
  ]

  -- No clause of the rules has two literals of one name.
  unfoldable pub no_repeats_in : String → List String → Engine → Bool
  unfolding no_repeats parse
  no_repeats_in nspc [] e = true
  no_repeats_in nspc (l ∷ ls) e = no_repeats decode nspc l e && (elim (parse decode nspc l e) [
    | none ↦ no_repeats_in nspc ls e
    | some e' ↦ no_repeats_in nspc ls e'
  ])

  -- No namespace has "@", and the rules of the files are as above.
  unfoldable pub all_plain : List String → Engine → Bool
  unfolding rule_file read_file open_rules no_repeats_in
  all_plain [] e = true
  all_plain (l ∷ ls) e = elim (rule_file l) [
    | none ↦ true
    | some p ↦
        (elim (decode p.1 >>= open_rules) [
          | none ↦ true
          | some rules ↦
              not (has_at (text_of (decode p.0))) && no_repeats_in (text_of (decode p.0)) rules e
        ])
        && all_plain ls (read_file p e)
  ]

  module _ (nspc : String) (plain : has_at nspc ≡ false) (ls : List String)
      (rest : (e : Engine)
        → Quiet e
        → no_repeats_in nspc ls e ≡ true
        → Quiet (parse_lines decode nspc ls e)) where
    Quiet-parsed :
        (e : Engine) (o : Option Engine)
        → Quiet e
        → IsParsed e o
        → elim o [ none ↦ no_repeats_in nspc ls e | some e' ↦ no_repeats_in nspc ls e' ] ≡ true
        → Quiet (elim o [
          | none ↦ parse_lines decode nspc ls e
          | some e' ↦ parse_lines decode nspc ls e'
        ])
    Quiet-parsed e none q parsed d = rest e q d
    Quiet-parsed e (some e') q parsed d =
        rest e' (record { valid = parsed.valid; unset = λ n h. parsed.system n h ∙ q.unset n h }) d

  parse_lines-Quiet :
      (nspc : String) (ls : List String) (e : Engine)
      → has_at nspc ≡ false
      → Quiet e
      → no_repeats_in nspc ls e ≡ true
      → Quiet (parse_lines decode nspc ls e)
  unfolding parse_lines no_repeats_in
  parse_lines-Quiet nspc [] e plain q d = q
  parse_lines-Quiet nspc (l ∷ ls) e plain q d =
      Quiet-parsed nspc plain ls (λ e' q' d'. parse_lines-Quiet nspc ls e' plain q' d') e
        (parse decode nspc l e) q (parse-Parsed decode nspc e q.valid plain l (ground (arith, d)))
        (ground (arith, d))

  opened-Quiet :
      (p : String × String) (e : Engine) (o : Option (List String))
      → Quiet e
      → elim o [
        | none ↦ true
        | some rules ↦
            not (has_at (text_of (decode p.0))) && no_repeats_in (text_of (decode p.0)) rules e
      ]
        ≡ true
      → Quiet (elim o [ none ↦ e | some ls ↦ parse_lines decode (text_of (decode p.0)) ls e ])
  opened-Quiet p e none q d = q
  opened-Quiet p e (some ls) q d =
      parse_lines-Quiet (text_of (decode p.0)) ls e (ground (arith, d)) q (ground (arith, d))

  listed-Quiet :
      (ls : List String)
      → ((e : Engine) → Quiet e → all_plain ls e ≡ true → Quiet (init_context_eng ls e))
      → (e : Engine) (o : Option (String × String)) → Quiet e
      → elim o [
        | none ↦ true
        | some p ↦
            (elim (decode p.1 >>= open_rules) [
              | none ↦ true
              | some rules ↦
                  not (has_at (text_of (decode p.0)))
                  && no_repeats_in (text_of (decode p.0)) rules e
            ])
            && all_plain ls (read_file p e)
      ]
        ≡ true
      → Quiet (elim o [ none ↦ e | some p ↦ init_context_eng ls (read_file p e) ])
  unfolding read_file
  listed-Quiet ls rest e none q d = q
  listed-Quiet ls rest e (some p) q d =
      rest (read_file p e) (opened-Quiet p e (decode p.1 >>= open_rules) q (ground (arith, d)))
        (ground (arith, d))

  init_context_eng-Quiet :
      (ls : List String) (e : Engine)
      → Quiet e
      → all_plain ls e ≡ true
      → Quiet (init_context_eng ls e)
  unfolding init_context_eng all_plain
  init_context_eng-Quiet [] e q d = q
  init_context_eng-Quiet (l ∷ ls) e q d =
      listed-Quiet ls (init_context_eng-Quiet ls) e (rule_file l) q d

  -- From init, initContextEng makes a valid engine in which no system name has a value, where no
  -- namespace in the list of files has "@" and no clause in the files has two literals of one name.
  pub init_context_eng-init :
      (ls : List String) → all_plain ls init ≡ true → Quiet (init_context_eng ls init)
  init_context_eng-init ls d =
      init_context_eng-Quiet ls init (record { valid = init-Valid; unset = λ n h. refl }) d
