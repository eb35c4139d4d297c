-- ===== src/Context/Wifi/Index.antt =====
-- The map ssidToRules of WifiContext and its rules, under addRule and removeRule.
use sctx.Context.Engine.{includes, put}
use sctx.Context.Wifi.{name_eq, WifiContext, put_rules, rules_of, add_rule, without, non_empty}
use sctx.Prelude.{
  ℕ, String, ◌≡◌, refl, Bool, true, false, not, ◌&&◌, Option, none, some, List, [], ◌∷◌, ◌==◌,
  eq_iff, ◌↔◌, eq_refl, if◌then◌else◌, arith,
}

pub name_eq_iff : (a b : Option String) → (name_eq a b ≡ true) ↔ (a ≡ b)
unfolding name_eq
name_eq_iff none none = (λ h. refl, λ h. refl)
name_eq_iff none (some b) = (λ h. ground (arith, h), λ h. ground (arith, h))
name_eq_iff (some a) none = (λ h. ground (arith, h), λ h. ground (arith, h))
name_eq_iff (some a) (some b) =
    (λ h. ground (arith, h, eq_iff a b), λ h. ground (arith, h, eq_iff a b))

pub name_eq_refl : (a : Option String) → name_eq a a ≡ true
unfolding name_eq
name_eq_refl none = refl
name_eq_refl (some a) = eq_refl a

-- No member stands twice.
unfoldable pub distinct : List ℕ → Bool
unfolding includes
distinct [] = true
distinct (i ∷ is) = not (includes is i) && distinct is

-- A set that is in the map has a rule.
unfoldable pub is_kept : Option (List ℕ) → Bool
is_kept (some []) = false
is_kept _ = true

pub record Indexed (w : WifiContext) : Type 0 where
  pub found : (i : ℕ) → includes w.rules i ≡ true → includes (rules_of w (w.rule i).ssid) i ≡ true
  pub only :
      (i : ℕ) (ssid : Option String)
      → includes (rules_of w ssid) i ≡ true
      → (includes w.rules i ≡ true) × (name_eq (w.rule i).ssid ssid ≡ true)
  pub once : (ssid : Option String) → distinct (rules_of w ssid) ≡ true
  pub rules_once : distinct w.rules ≡ true
  pub kept : (ssid : Option String) → is_kept (w.ssid_to_rules ssid) ≡ true

Indexed-if :
    (b : Bool) (w w' : WifiContext)
    → Indexed w
    → (b ≡ false → Indexed w')
    → Indexed (if b then w else w')
Indexed-if true w w' x y = x
Indexed-if false w w' x y = y refl

module _ (i : ℕ) (w : WifiContext) (x : Indexed w) where
  abbrev ssid : Option String
  ssid = (w.rule i).ssid

  abbrev grown : List ℕ
  grown = if includes (rules_of w ssid) i then rules_of w ssid else i ∷ rules_of w ssid

  abbrev added : WifiContext
  added = record w {
    rule = put w.rule i (record (w.rule i) { last_ref_count = 0; ref_count = 0 });
    ssid_to_rules = put_rules w.ssid_to_rules ssid (some grown);
    rules = i ∷ w.rules;
  }

  rules_of-added :
      (s : Option String) → rules_of added s ≡ (if name_eq ssid s then grown else rules_of w s)
  unfolding rules_of put_rules
  rules_of-added s = ground arith

  added-Indexed : includes w.rules i ≡ false → Indexed added
  unfolding distinct put_rules is_kept includes
  added-Indexed new = record {
    found = λ j h. ground (
      arith,
      x.found j,
      rules_of-added (w.rule j).ssid,
      rules_of-added ssid,
      h,
      name_eq_refl ssid,
      name_eq_iff ssid (w.rule j).ssid,
    );
    only = λ j s h. ground (arith, x.only j s, rules_of-added s, h, name_eq_iff ssid s);
    once = λ s. ground (arith, x.once s, rules_of-added s, x.only i s, new, name_eq_iff ssid s);
    rules_once = ground (arith, x.rules_once, new);
    kept = λ s. ground (arith, x.kept s);
  }

  pub add_rule-Indexed : Indexed (add_rule i w)
  unfolding add_rule
  add_rule-Indexed = Indexed-if (includes w.rules i) w added x added-Indexed

pub includes-without :
    (l : List ℕ) (i j : ℕ) → includes (without l i) j ≡ (not (i == j) && includes l j)
unfolding includes without
includes-without [] i j = ground arith
includes-without (k ∷ l) i j = ground (arith, includes-without l i j)

pub without-absent : (is : List ℕ) (i : ℕ) → includes is i ≡ false → without is i ≡ is
unfolding without includes
without-absent [] i h = refl
without-absent (j ∷ is) i h = ground (arith, without-absent is i, h)

distinct-without : (l : List ℕ) (i : ℕ) → distinct l ≡ true → distinct (without l i) ≡ true
unfolding distinct without
distinct-without [] i h = refl
distinct-without (k ∷ l) i h = ground (arith, distinct-without l i, includes-without l i k)

members : Option (List ℕ) → List ℕ
members none = []
members (some l) = l

members-non_empty : (l : List ℕ) → members (non_empty l) ≡ l
unfolding members non_empty
members-non_empty [] = refl
members-non_empty (i ∷ is) = refl

is_kept-non_empty : (l : List ℕ) → is_kept (non_empty l) ≡ true
unfolding is_kept non_empty
is_kept-non_empty [] = refl
is_kept-non_empty (i ∷ is) = refl

module _ (i : ℕ) (w : WifiContext) where
  abbrev pub key : Option String
  key = (w.rule i).ssid

  abbrev pub removed : WifiContext
  removed = record w {
    ssid_to_rules = put_rules w.ssid_to_rules key (non_empty (without (rules_of w key) i));
    rules = without w.rules i;
  }

module _ (i : ℕ) (w : WifiContext) (x : Indexed w) where
  rules_of-removed :
      (s : Option String)
      → rules_of (removed i w) s
        ≡ (if name_eq (key i w) s then without (rules_of w (key i w)) i else rules_of w s)
  unfolding rules_of put_rules members
  rules_of-removed s = ground (arith, members-non_empty (without (rules_of w (key i w)) i))

  pub removed-Indexed : Indexed (removed i w)
  unfolding put_rules
  removed-Indexed = record {
    found = λ j h. ground (
      arith,
      x.found j,
      rules_of-removed (w.rule j).ssid,
      h,
      includes-without w.rules i j,
      includes-without (rules_of w (key i w)) i j,
      name_eq_iff (key i w) (w.rule j).ssid,
    );
    only = λ j s h. ground (
      arith,
      x.only j s,
      x.only j (key i w),
      rules_of-removed s,
      h,
      includes-without w.rules i j,
      includes-without (rules_of w (key i w)) i j,
      name_eq_iff (key i w) s,
      name_eq_iff (w.rule i).ssid s,
    );
    once = λ s. ground (
      arith,
      x.once s,
      x.once (key i w),
      rules_of-removed s,
      distinct-without (rules_of w (key i w)) i,
    );
    rules_once = distinct-without w.rules i x.rules_once;
    kept = λ s. ground (arith, x.kept s, is_kept-non_empty (without (rules_of w (key i w)) i));
  }
