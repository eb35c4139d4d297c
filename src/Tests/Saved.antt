-- ===== src/Tests/Saved.antt =====
-- A rule of WifiContext that is saved and read.
use sctx.Context.Text.{has_char, is_empty}
use sctx.Context.Wifi.{WifiRule, WifiContext, add_rule}
use sctx.Context.Wifi.Contexts.Steps.{no_rules}
use sctx.Context.Wifi.Files.{conf, read_rule, save_rules_to_local, add_rules_from_reader}
use sctx.Context.Wifi.Files.Reading.{saved_rule}
use sctx.Context.Wifi.Files.Saved.{any_pair, pairs_of, all_texts, save_rules_to_local-read}
use sctx.Prelude.{
  String, ℤ, pos, negsuc, ◌≡◌, refl, Bool, true, false, Option, none, some, List, [], ◌∷◌, str_eq,
  eq_iff, if◌then◌else◌, arith, subst,
}

abbrev encode : Option String → Option String
encode s = s

abbrev next_int : String → Option ℤ
next_int t =
    if str_eq t "-200" then some (negsuc 199) else (if str_eq t "0" then some (pos 0) else none)

abbrev home : WifiRule
home = saved_rule "home" "home"

abbrev rules : WifiContext
rules = add_rule 0 (no_rules (λ i. home))

-- The line is read in any case of "black", and not with an item too many.
read_black : read_rule some next_int "home,net,-200,bLaCK,0" ≡ some (saved_rule "home" "net")
unfolding read_rule
read_black = refl

read_more : read_rule some next_int "home,net,-200,BLACK,0,more" ≡ none
unfolding read_rule
read_more = refl

abbrev codable : String → Bool
codable s = str_eq "home" s

codable-home : (s : String) → codable s ≡ true → has_char b',' s ≡ false
unfolding has_char
codable-home s h =
    let same : "home" ≡ s = ground (arith, eq_iff "home" s, h) in
    subst (λ t. has_char b',' t ≡ false) same refl

save_rules_to_local-read_example :
    (ls : List String) × (save_rules_to_local encode rules ≡ some ls)
    × (let w' = add_rules_from_reader some next_int 5 ls (no_rules (λ i. home)) in
        any_pair w'.rule w'.rules ("Wifi@home", some "home")
        ≡ any_pair rules.rule rules.rules ("Wifi@home", some "home"))
unfolding add_rule conf pairs_of all_texts is_empty
save_rules_to_local-read_example =
    save_rules_to_local-read some encode next_int codable (λ s. s) (λ s h. refl) (λ s h. refl)
      codable-home (λ s h. refl) refl refl rules (("home", "home") ∷ []) 5 (λ i. home)
      ("Wifi@home", some "home") refl refl
