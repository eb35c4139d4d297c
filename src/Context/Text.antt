-- ===== src/Context/Text.antt =====
-- The texts of rules: what the code uses of java.lang.String and java.util.Scanner.
pub mod Laws
use Prim.Native.Char.{Char, code}
use Prim.Native.String.{String, ◌++◌}
use sctx.Prelude.{
  ℕ, Bool, true, false, ◌||◌, Option, none, some, List, [], ◌∷◌, ◌==◌, if◌then◌else◌,
}

-- `contains` of a text of one character, by its number.
unfoldable pub has_char : ℕ → String → Bool
has_char k String.[] = false
has_char k (String.◌∷◌ c s) = code c == k || has_char k s

abbrev pub has_at : String → Bool
has_at = has_char b'@'

abbrev pub has_dollar : String → Bool
has_dollar = has_char b'$'

-- `startsWith("!")`, with the rest of the text.
unfoldable pub negated : String → Option String
negated String.[] = none
negated (String.◌∷◌ c s) = if code c == b'!' then some s else none

-- The name of a symbol in a namespace.
unfoldable pub qualify : String → String → String
qualify nspc name = nspc ++ ("$" ++ name)

unfoldable pub cons_first : Char → List String → List String
cons_first c [] = []
cons_first c (s ∷ ss) = String.◌∷◌ c s ∷ ss

-- The pieces between the separators: one more than there are separators.
unfoldable pub pieces : ℕ → String → List String
unfolding cons_first
pieces k String.[] = "" ∷ []
pieces k (String.◌∷◌ c s) =
    let rest = pieces k s in if code c == k then "" ∷ rest else cons_first c rest

unfoldable pub is_empty : String → Bool
is_empty String.[] = true
is_empty (String.◌∷◌ c s) = false

-- A Scanner steps over one separator before each token, also over one at the start of the text.
unfoldable pub drop_first : List String → List String
unfolding is_empty
drop_first [] = []
drop_first (s ∷ []) = s ∷ []
drop_first (s ∷ t ∷ ss) = if is_empty s then t ∷ ss else s ∷ t ∷ ss

-- It has no token after the last separator where the text ends.
unfoldable pub drop_last : List String → List String
unfolding is_empty
drop_last [] = []
drop_last (s ∷ []) = if is_empty s then [] else s ∷ []
drop_last (s ∷ t ∷ ss) = s ∷ drop_last (t ∷ ss)

-- The tokens of a Scanner whose delimiter is one character.
unfoldable pub tokens : ℕ → String → List String
unfolding pieces drop_first drop_last
tokens k s = drop_last (drop_first (pieces k s))

-- The text before the first character `k` and the text after it.
unfoldable pub split_first : ℕ → String → Option (String × String)
split_first k String.[] = none
split_first k (String.◌∷◌ c s) =
    let rest = split_first k s in
    if code c == k
    then some ("", s)
    else elim rest [ none ↦ none | some p ↦ some (String.◌∷◌ c p.0, p.1) ]
