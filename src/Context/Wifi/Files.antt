-- ===== src/Context/Wifi/Files.antt =====
-- The file of rules of WifiContext: addRulesFromReader and saveRulesToLocal.
pub mod Reading
pub mod Saved
use Prim.Native.Char.{Char, code}
use Prim.Native.String.{String, ◌++◌}
use sctx.Context.Engine.{put}
use sctx.Context.Smart.Files.{text_of}
use sctx.Context.Text.{tokens}
use sctx.Context.Wifi.{name_eq, ListType, white, black, WifiRule, WifiContext, add_rule}
use sctx.Prelude.{
  ℕ, suc, zero, ℤ, pos, negsuc, ◌+◌, Bool, true, false, not, ◌||◌, ◌&&◌, Option, none, some, List,
  [], ◌∷◌, ◌==◌, leb, str_eq, if◌then◌else◌,
}
use sctx.Prelude.Options.{◌>>=◌, ◌>>◌, stop_if}

-- The lower case of a character of "black", by its number; 8490 is the Kelvin sign.
unfoldable pub lower_case : ℕ → ℕ
lower_case k = if leb 65 k && leb k 90 then k + 32 else (if k == 8490 then 107 else k)

-- `equalsIgnoreCase`, with a text in lower case.
unfoldable pub equals_ignore_case : String → String → Bool
unfolding lower_case
equals_ignore_case String.[] String.[] = true
equals_ignore_case (String.◌∷◌ c s) (String.◌∷◌ d t) =
    (lower_case (code c) == code d) && equals_ignore_case s t
equals_ignore_case _ _ = false

-- The loop over the items of the list: the items, and none where a token is missing or left over.
unfoldable pub list_items : ℕ → List String → Option (List String)
list_items zero [] = some []
list_items zero (t ∷ ts) = none
list_items (suc n) [] = none
list_items (suc n) (t ∷ ts) = elim (list_items n ts) [ none ↦ none | some l ↦ some (t ∷ l) ]

-- No items for a negative count.
unfoldable pub item_count : ℤ → ℕ
item_count (pos n) = n
item_count (negsuc n) = 0

-- `decode` is Util.decodeURLString, and `next_int` the number that Scanner.nextInt reads from a
-- token.
module _ (decode : String → Option String) (next_int : String → Option ℤ) where
  -- The rule of a line, none where the line is passed over.
  read_tokens : List String → Option WifiRule
  unfolding equals_ignore_case list_items item_count
  read_tokens (context ∷ ssid ∷ threshold ∷ type ∷ count ∷ items) = do
    level ← next_int threshold
    n ← next_int count
    list ← list_items (item_count n) items
    some (record {
      ssid = decode ssid;
      result_context = "Wifi@" ++ text_of (decode context);
      level_threshold = level;
      list_type = if equals_ignore_case type "black" then black else white;
      essid_list = some list;
      last_ref_count = 0;
      ref_count = 0;
    })
  read_tokens _ = none

  unfoldable pub read_rule : String → Option WifiRule
  unfolding read_tokens tokens
  read_rule line = read_tokens (tokens b',' line)

  -- addRulesFromReader. The rule objects that it makes are the numbers from `next` on.
  unfoldable pub add_rules_from_reader : ℕ → List String → WifiContext → WifiContext
  unfolding read_rule add_rule
  add_rules_from_reader next [] w = w
  add_rules_from_reader next (l ∷ ls) w = elim (read_rule l) [
    | none ↦ add_rules_from_reader next ls w
    | some r ↦
        add_rules_from_reader (suc next) ls (add_rule next (record w { rule = put w.rule next r }))
  ]

-- A context and a name of a network.
abbrev pub Pair : Type 0
Pair = String × Option String

unfoldable pub has_pair : List Pair → Pair → Bool
unfolding name_eq
has_pair [] p = false
has_pair (q ∷ qs) p = (str_eq q.0 p.0 && name_eq q.1 p.1) || has_pair qs p

-- The map `conf`: each pair of the rules once.
unfoldable pub conf : (ℕ → WifiRule) → List ℕ → List Pair
unfolding has_pair
conf f [] = []
conf f (i ∷ is) =
    let rest = conf f is in
    let p : Pair = ((f i).result_context, (f i).ssid) in if has_pair rest p then rest else p ∷ rest

-- `substring(5)`, none where the text is shorter.
unfoldable pub after_prefix : ℕ → String → Option String
after_prefix zero s = some s
after_prefix (suc n) String.[] = none
after_prefix (suc n) (String.◌∷◌ c s) = after_prefix n s

-- `encode` is Util.encodeURLString.
module _ (encode : Option String → Option String) where
  unfoldable pub rule_line : String → Option String → String
  rule_line symbol ssid =
      text_of (encode (some symbol)) ++ ("," ++ (text_of (encode ssid) ++ ",-200,BLACK,0"))

  -- saveRulesToLocal, none where it ends by an exception.
  save_lines : List Pair → Option (List String)
  unfolding rule_line after_prefix
  save_lines [] = some []
  save_lines (p ∷ ps) = do
    symbol ← after_prefix 5 p.0
    ls ← save_lines ps
    some (rule_line symbol p.1 ∷ ls)

  unfoldable pub save_rules_to_local : WifiContext → Option (List String)
  unfolding conf save_lines
  save_rules_to_local w = save_lines (conf w.rule w.rules)
