-- ===== src/Context/Wifi/Removal.antt =====
-- The rules that removeRules of WifiContext removes.
use sctx.Context.Engine.{includes}
use sctx.Context.Wifi.{
  WifiRule, WifiContext, rules_of, remove_rule, selects, selects_name, selected, remove_all,
  remove_rules,
}
use sctx.Context.Wifi.Index.{Indexed, removed, removed-Indexed, key, includes-without}
use sctx.Prelude.{
  ℕ, String, ◌≡◌, refl, true, false, not, ◌&&◌, Option, none, some, List, [], ◌∷◌, Option-cases,
  Bool-cases, inl, inr, arith, sym, subst, ◌∙◌,
}
use sctx.Prelude.Options.{◌>>=◌}

module _ (i : ℕ) (w : WifiContext) (x : Indexed w) where
  pub remove_rule-absent : includes w.rules i ≡ false → remove_rule i w ≡ some w
  unfolding remove_rule
  remove_rule-absent h = rw (h) refl

  rules_of-some : (l : List ℕ) → w.ssid_to_rules (key i w) ≡ some l → rules_of w (key i w) ≡ l
  unfolding rules_of
  rules_of-some l h = rw (rules_of, h) refl

  no_rules : w.ssid_to_rules (key i w) ≡ none → includes (rules_of w (key i w)) i ≡ false
  unfolding rules_of includes
  no_rules h = rw (rules_of, h) refl

  pub remove_rule-present : includes w.rules i ≡ true → remove_rule i w ≡ some (removed i w)
  unfolding remove_rule
  remove_rule-present h = elim (Option-cases (w.ssid_to_rules (w.rule i).ssid)) [
    | inl missing ↦ absurd (ground (arith, x.found i h, no_rules missing))
    | inr (l, there) ↦ rw (h, there, rules_of-some l there) refl
  ]

-- The rules of `is` are gone, and the others are as they were.
pub record Removed (is : List ℕ) (w w' : WifiContext) : Type 0 where
  pub indexed : Indexed w'
  pub left : (j : ℕ) → includes w'.rules j ≡ (includes w.rules j && not (includes is j))
  pub rule : w'.rule ≡ w.rule

abbrev pub IsRemoved : List ℕ → WifiContext → Option WifiContext → Type 0
IsRemoved is w none = ⊥
IsRemoved is w (some w') = Removed is w w'

remove_rule-IsRemoved :
    (i : ℕ) (w : WifiContext) → Indexed w → IsRemoved (i ∷ []) w (remove_rule i w)
unfolding includes
remove_rule-IsRemoved i w x = elim (Bool-cases (includes w.rules i)) [
  | inl there ↦ subst (IsRemoved (i ∷ []) w) (sym (remove_rule-present i w x there)) (record {
    indexed = removed-Indexed i w x;
    left = λ j. ground (arith, includes-without w.rules i j);
    rule = refl;
  })
  | inr absent ↦
      subst (IsRemoved (i ∷ []) w) (sym (remove_rule-absent i w x absent))
        (record { indexed = x; left = λ j. ground (arith, absent); rule = refl })
]

module _ (i : ℕ) (is : List ℕ) (w : WifiContext) where
  IsRemoved-cons :
      (w' : WifiContext) (o : Option WifiContext)
      → Removed (i ∷ []) w w'
      → IsRemoved is w' o
      → IsRemoved (i ∷ is) w o
  unfolding includes
  IsRemoved-cons w' none first rest = rest
  IsRemoved-cons w' (some t) first rest = record {
    indexed = rest.indexed;
    left = λ j. ground (arith, first.left j, rest.left j);
    rule = rest.rule ∙ first.rule;
  }

  IsRemoved-chain :
      (o : Option WifiContext)
      → IsRemoved (i ∷ []) w o
      → ((w' : WifiContext) → Indexed w' → IsRemoved is w' (remove_all is w'))
      → IsRemoved (i ∷ is) w (o >>= remove_all is)
  IsRemoved-chain none first rest = first
  IsRemoved-chain (some w') first rest =
      IsRemoved-cons w' (remove_all is w') first (rest w' first.indexed)

remove_all-IsRemoved :
    (is : List ℕ) (w : WifiContext) → Indexed w → IsRemoved is w (remove_all is w)
unfolding remove_all includes
remove_all-IsRemoved [] w x = record { indexed = x; left = λ j. ground arith; rule = refl }
remove_all-IsRemoved (i ∷ is) w x =
    IsRemoved-chain i is w (remove_rule i w) (remove_rule-IsRemoved i w x)
      (λ w' x'. remove_all-IsRemoved is w' x')

includes-selected :
    (symbol_name ssid : Option String) (f : ℕ → WifiRule) (is : List ℕ) (j : ℕ)
    → includes (selected symbol_name ssid f is) j
      ≡ (includes is j && selects symbol_name (f j).result_context && selects_name ssid (f j).ssid)
unfolding includes selected
includes-selected symbol_name ssid f [] j = refl
includes-selected symbol_name ssid f (i ∷ is) j =
    ground (arith, includes-selected symbol_name ssid f is j)

-- The rules that are left are those that the names do not select.
pub record Cleared (symbol_name ssid : Option String) (w w' : WifiContext) : Type 0 where
  pub indexed : Indexed w'
  pub left :
      (j : ℕ)
      → includes w'.rules j ≡ (
          includes w.rules j
          && not
              (selects symbol_name (w.rule j).result_context && selects_name ssid (w.rule j).ssid))
  pub rule : w'.rule ≡ w.rule

abbrev pub IsCleared : Option String → Option String → WifiContext → Option WifiContext → Type 0
IsCleared symbol_name ssid w none = ⊥
IsCleared symbol_name ssid w (some w') = Cleared symbol_name ssid w w'

IsCleared-IsRemoved :
    (symbol_name ssid : Option String) (w : WifiContext) (o : Option WifiContext)
    → IsRemoved (selected symbol_name ssid w.rule w.rules) w o
    → IsCleared symbol_name ssid w o
IsCleared-IsRemoved symbol_name ssid w none r = r
IsCleared-IsRemoved symbol_name ssid w (some w') r = record {
  indexed = r.indexed;
  left = λ j. ground (arith, r.left j, includes-selected symbol_name ssid w.rule w.rules j);
  rule = r.rule;
}

-- On rules that are indexed by their names, removeRules ends without an exception: exactly the rules
-- with the context and the name are gone, where null stands for any, and the others are indexed.
pub remove_rules-IsCleared :
    (symbol_name ssid : Option String) (w : WifiContext)
    → Indexed w
    → IsCleared symbol_name ssid w (remove_rules symbol_name ssid w)
unfolding remove_rules
remove_rules-IsCleared symbol_name ssid w x =
    IsCleared-IsRemoved symbol_name ssid w (remove_all (selected symbol_name ssid w.rule w.rules) w)
      (remove_all-IsRemoved (selected symbol_name ssid w.rule w.rules) w x)
