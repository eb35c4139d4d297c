-- ===== src/Tests/Files.antt =====
-- A list of files of rules for SmartContext, with one asset.
use sctx.Context.Engine.Parse.{init}
use sctx.Context.Smart.Files.{init_context_eng}
use sctx.Context.Text.{has_char}
use sctx.Prelude.{String, ◌≡◌, refl, Option, none, some, List, [], ◌∷◌, str_eq, if◌then◌else◌}

abbrev no_file : String → Option (List String)
no_file path = none

abbrev asset : String → Option (List String)
asset path = if str_eq path "rules.txt" then some ("s,Wifi@home" ∷ "t,s,@w" ∷ []) else none

-- The last line has no path and ends the list.
abbrev files : List String
files = "n,rules.txt" ∷ "m,missing.txt" ∷ "k," ∷ "o,rules.txt" ∷ []

engine_size : (init_context_eng some no_file asset no_file files init).size ≡ 2
unfolding init_context_eng has_char
engine_size = refl
