-- ===== src/Context/Wifi/Files/Saved.antt =====
-- The whole file that saveRulesToLocal of WifiContext writes, as addRulesFromReader reads it.
use Prim.Native.String.{String, ◌++◌}
use sctx.Context.Engine.{includes, put}
use sctx.Context.Text.{has_char, is_empty}
use sctx.Context.Wifi.{name_eq, WifiRule, WifiContext, add_rule}
use sctx.Context.Wifi.Contexts.Steps.{no_rules}
use sctx.Context.Wifi.Files.{
  Pair, has_pair, conf, after_prefix, rule_line, save_lines, save_rules_to_local, read_rule,
  add_rules_from_reader,
}
use sctx.Context.Wifi.Files.Reading.{saved_rule, read_rule-rule_line}
use sctx.Context.Wifi.Index.{name_eq_iff}
use sctx.Prelude.{
  ℕ, suc, ℤ, pos, negsuc, ◌<◌, ◌≡◌, refl, sym, subst, Bool, true, false, not, ◌||◌, ◌&&◌, Option,
  some, List, [], ◌∷◌, str_eq, eq_iff, arith,
}
use text.Mathlib.TextLemmas.{cons-append, nil-append}

-- Whether a rule has the context and the name.
unfoldable pub any_pair : (ℕ → WifiRule) → List ℕ → Pair → Bool
any_pair f [] p = false
any_pair f (i ∷ is) p =
    (str_eq (f i).result_context p.0 && name_eq (f i).ssid p.1) || any_pair f is p

has_pair-conf :
    (f : ℕ → WifiRule) (is : List ℕ) (p : Pair) → has_pair (conf f is) p ≡ any_pair f is p
unfolding has_pair conf any_pair
has_pair-conf f [] p = refl
has_pair-conf f (i ∷ is) p = ground (
  arith,
  has_pair-conf f is p,
  has_pair-conf f is ((f i).result_context, (f i).ssid),
  eq_iff (f i).result_context p.0,
  name_eq_iff (f i).ssid p.1,
)

any_pair-put :
    (f : ℕ → WifiRule) (i : ℕ) (r : WifiRule) (is : List ℕ) (p : Pair)
    → includes is i ≡ false
    → any_pair (put f i r) is p ≡ any_pair f is p
unfolding any_pair includes
any_pair-put f i r [] p h = refl
any_pair-put f i r (j ∷ is) p h = ground (arith, any_pair-put f i r is p, h)

after_prefix-append : (s : String) → after_prefix 5 ("Wifi@" ++ s) ≡ some s
unfolding after_prefix
after_prefix-append s =
    rw (cons-append, cons-append, cons-append, cons-append, cons-append, nil-append) refl

-- A context after "Wifi@" and the name of a network.
abbrev pub Named : Type 0
Named = String × String

abbrev pub pair_of : Named → Pair
pair_of p = ("Wifi@" ++ p.0, some p.1)

unfoldable pub pairs_of : List Named → List Pair
pairs_of [] = []
pairs_of (p ∷ ps) = pair_of p ∷ pairs_of ps

-- The texts can be encoded, and the contexts are not empty.
unfoldable pub all_texts : (String → Bool) → List Named → Bool
all_texts codable [] = true
all_texts codable (p ∷ ps) =
    not (is_empty p.0) && codable p.0 && codable p.1 && all_texts codable ps

unfoldable lines_of : (Option String → Option String) → List Named → List String
lines_of encode [] = []
lines_of encode (p ∷ ps) = rule_line encode p.0 (some p.1) ∷ lines_of encode ps

save_lines-pairs_of :
    (encode : Option String → Option String) (ps : List Named)
    → save_lines encode (pairs_of ps) ≡ some (lines_of encode ps)
unfolding save_lines pairs_of lines_of
save_lines-pairs_of encode [] = refl
save_lines-pairs_of encode (p ∷ ps) =
    rw (after_prefix-append p.0, save_lines-pairs_of encode ps) refl

module _ (next : ℕ) (r : WifiRule) (w : WifiContext)
    (fresh : (i : ℕ) → includes w.rules i ≡ true → i < next) where
  abbrev grown : WifiContext
  grown = add_rule next (record w { rule = put w.rule next r })

  no_rule : includes w.rules next ≡ false
  no_rule = ground (arith, fresh next)

  fresh-grown : (i : ℕ) → includes grown.rules i ≡ true → i < suc next
  unfolding add_rule includes
  fresh-grown i h = ground (arith, fresh i, no_rule, h)

  any_pair-grown :
      (p : Pair)
      → any_pair grown.rule grown.rules p
        ≡ ((str_eq r.result_context p.0 && name_eq r.ssid p.1) || any_pair w.rule w.rules p)
  unfolding add_rule any_pair
  any_pair-grown p =
      let put_once = put w.rule next r in
      rw (no_rule) (
        ground (
          arith,
          any_pair-put w.rule next r w.rules p no_rule,
          any_pair-put put_once next (record (put_once next) { last_ref_count = 0; ref_count = 0 })
              w.rules p no_rule,
        ))

module _ (decode : String → Option String) (encode : Option String → Option String)
    (next_int : String → Option ℤ) (codable : String → Bool) (text : String → String)
    (encodes : (s : String) → codable s ≡ true → encode (some s) ≡ some (text s))
    (decodes : (s : String) → codable s ≡ true → decode (text s) ≡ some s)
    (no_comma : (s : String) → codable s ≡ true → has_char b',' (text s) ≡ false)
    (keeps : (s : String) → codable s ≡ true → is_empty (text s) ≡ is_empty s)
    (threshold : next_int "-200" ≡ some (negsuc 199)) (no_items : next_int "0" ≡ some (pos 0)) where
  add_rules-read :
      (next : ℕ) (l : String) (ls : List String) (w : WifiContext) (r : WifiRule)
      → read_rule decode next_int l ≡ some r
      → add_rules_from_reader decode next_int next (l ∷ ls) w
        ≡ add_rules_from_reader decode next_int
            (suc next)
            ls
            (add_rule next (record w { rule = put w.rule next r }))
  unfolding add_rules_from_reader
  add_rules-read next l ls w r h = rw (add_rules_from_reader, h) refl

  any_pair-read :
      (next : ℕ) (ps : List Named) (w : WifiContext) (p : Pair)
      → all_texts codable ps ≡ true
      → ((i : ℕ) → includes w.rules i ≡ true → i < next)
      → let w' = add_rules_from_reader decode next_int next (lines_of encode ps) w in
        any_pair w'.rule w'.rules p ≡ (has_pair (pairs_of ps) p || any_pair w.rule w.rules p)
  unfolding add_rules_from_reader lines_of pairs_of has_pair all_texts
  any_pair-read next [] w p texts fresh = refl
  any_pair-read next (q ∷ ps) w p texts fresh =
      let r = saved_rule q.0 q.1 in
      let line = rule_line encode q.0 (some q.1) in
      let read =
        read_rule-rule_line decode encode next_int codable text encodes decodes no_comma keeps
          threshold no_items q.0 q.1 (ground (arith, texts)) (ground (arith, texts))
          (ground (arith, texts)) in
      subst
        (λ w'.
          any_pair w'.rule w'.rules p
          ≡ (has_pair (pairs_of (q ∷ ps)) p || any_pair w.rule w.rules p))
        (sym (add_rules-read next line (lines_of encode ps) w r read))
        (ground (
          arith,
          any_pair-read (suc next) ps (grown next r w fresh) p (ground (arith, texts))
              (fresh-grown next r w fresh),
          any_pair-grown next r w fresh p,
        ))

  -- Where the encoding of a codable text can be decoded, has no comma and is empty only for the empty
  -- text, and -200 and 0 are read as numbers: if the rules have the contexts and names of `ps`, all
  -- codable, each context "Wifi@" with a text after it that is not empty, then saveRulesToLocal writes a file, and reading it into
  -- a context without rules gives rules with exactly the same contexts and names.
  pub save_rules_to_local-read :
      (w : WifiContext) (ps : List Named) (next : ℕ) (f : ℕ → WifiRule) (p : Pair)
      → conf w.rule w.rules ≡ pairs_of ps
      → all_texts codable ps ≡ true
      → (ls : List String) × (save_rules_to_local encode w ≡ some ls)
        × (let w' = add_rules_from_reader decode next_int next ls (no_rules f) in
            any_pair w'.rule w'.rules p ≡ any_pair w.rule w.rules p)
  unfolding save_rules_to_local any_pair includes
  save_rules_to_local-read w ps next f p same texts = (
    lines_of encode ps,
    rw (same) (save_lines-pairs_of encode ps),
    ground (
      arith,
      any_pair-read next ps (no_rules f) p texts (λ i h. ground (arith, h)),
      has_pair-conf w.rule w.rules p,
      same,
    ),
  )
