-- ===== src/Context/Wifi/Files/Reading.antt =====
-- A line that saveRulesToLocal of WifiContext writes, as addRulesFromReader reads it.
use Prim.Native.String.{String, ◌++◌}
use sctx.Context.Text.{has_char, cons_first, pieces, drop_first, drop_last, is_empty, tokens}
use sctx.Context.Wifi.{black, WifiRule}
use sctx.Context.Wifi.Files.{
  lower_case, equals_ignore_case, list_items, item_count, read_tokens, read_rule, rule_line,
}
use sctx.Prelude.{ℤ, pos, negsuc, ◌≡◌, refl, ◌∙◌, Bool, true, false, Option, some, [], ◌∷◌, arith}
use text.Mathlib.TextLemmas.{cons-append, nil-append}

pieces-append :
    (a r : String) → has_char b',' a ≡ false → pieces b',' (a ++ ("," ++ r)) ≡ a ∷ pieces b',' r
unfolding pieces has_char cons_first
pieces-append String.[] r h = rw (nil-append, cons-append, nil-append) refl
pieces-append (String.◌∷◌ c s) r h = rw (cons-append) (ground (arith, pieces-append s r, h))

tokens-line :
    (a b : String)
    → has_char b',' a ≡ false
    → has_char b',' b ≡ false
    → is_empty a ≡ false
    → tokens b',' (a ++ ("," ++ (b ++ ("," ++ "-200,BLACK,0"))))
      ≡ a ∷ b ∷ "-200" ∷ "BLACK" ∷ "0" ∷ []
unfolding tokens pieces drop_first drop_last is_empty
tokens-line a b plain plain' some_text =
    rw
      (
        pieces-append a (b ++ ("," ++ "-200,BLACK,0")) plain,
        pieces-append b "-200,BLACK,0" plain',
        some_text,
      )
      refl

-- The rule that a saved line stands for.
abbrev pub saved_rule : String → String → WifiRule
saved_rule symbol ssid = record {
  ssid = some ssid;
  result_context = "Wifi@" ++ symbol;
  level_threshold = negsuc 199;
  list_type = black;
  essid_list = some [];
  last_ref_count = 0;
  ref_count = 0;
}

module _ (decode : String → Option String) (encode : Option String → Option String)
    (next_int : String → Option ℤ) (codable : String → Bool) (text : String → String)
    (encodes : (s : String) → codable s ≡ true → encode (some s) ≡ some (text s))
    (decodes : (s : String) → codable s ≡ true → decode (text s) ≡ some s)
    (no_comma : (s : String) → codable s ≡ true → has_char b',' (text s) ≡ false)
    (keeps : (s : String) → codable s ≡ true → is_empty (text s) ≡ is_empty s)
    (threshold : next_int "-200" ≡ some (negsuc 199)) (no_items : next_int "0" ≡ some (pos 0)) where
  read_tokens-line :
      (symbol ssid : String)
      → codable symbol ≡ true
      → codable ssid ≡ true
      → read_tokens decode next_int (text symbol ∷ text ssid ∷ "-200" ∷ "BLACK" ∷ "0" ∷ [])
        ≡ some (saved_rule symbol ssid)
  unfolding read_tokens equals_ignore_case lower_case list_items item_count
  read_tokens-line symbol ssid cs ct =
      rw (threshold, no_items, decodes symbol cs, decodes ssid ct) refl

  -- Where the encoding of a codable text can be decoded, has no comma and is empty only for the empty
  -- text, and -200 and 0 are read as numbers: for codable texts, the line that saveRulesToLocal writes for a context after "Wifi@" that
  -- is not empty, and for the name of a network, is read by addRulesFromReader as a rule of that
  -- context and that name, with the threshold -200 and an empty black list.
  pub read_rule-rule_line :
      (symbol ssid : String)
      → codable symbol ≡ true
      → codable ssid ≡ true
      → is_empty symbol ≡ false
      → read_rule decode next_int (rule_line encode symbol (some ssid))
        ≡ some (saved_rule symbol ssid)
  unfolding read_rule rule_line
  read_rule-rule_line symbol ssid cs ct named =
      rw
        (
          encodes symbol cs,
          encodes ssid ct,
          tokens-line (text symbol) (text ssid) (no_comma symbol cs) (no_comma ssid ct)
              (keeps symbol cs ∙ named),
        )
        (read_tokens-line symbol ssid cs ct)
