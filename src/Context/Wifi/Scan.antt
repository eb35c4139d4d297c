-- ===== src/Context/Wifi/Scan.antt =====
-- How often the rules of WifiContext match the networks of a scan.
use sctx.Context.Engine.{includes, put}
use sctx.Context.Smart.{int_add}
use sctx.Context.Wifi.{
  WifiRule, ScanResult, WifiContext, matches, rules_of, start_counts, count_item, count_items,
  counted_rules,
}
use sctx.Context.Wifi.Index.{name_eq_iff, distinct, Indexed}
use sctx.Prelude.{
  ℕ, ◌+◌, ◌<◌, ◌≡◌, refl, true, Option, none, some, List, [], ◌∷◌, if◌then◌else◌, length, arith,
  ◌∙◌, ap,
}

-- The networks of a scan that a rule matches.
unfoldable pub matched : WifiRule → List ScanResult → ℕ
unfolding matches
matched r [] = 0
matched r (item ∷ items) =
    (if matches r item.ssid item.bssid item.level then 1 else 0) + matched r items

start_counts-at :
    (is : List ℕ) (f : ℕ → WifiRule) (i : ℕ)
    → distinct is ≡ true
    → start_counts is f i ≡ (
        if includes is i
        then record (f i) { last_ref_count = (f i).ref_count; ref_count = 0 }
        else f i)
unfolding distinct includes start_counts
start_counts-at [] f i h = refl
start_counts-at (j ∷ is) f i h = ground (arith, start_counts-at is f i, start_counts-at is f j, h)

-- A rule once a network is counted.
abbrev counted_once : ScanResult → WifiRule → WifiRule
counted_once item r =
    if matches r item.ssid item.bssid item.level
    then (record r { ref_count = int_add r.ref_count 1 })
    else r

count_item-at :
    (item : ScanResult) (is : List ℕ) (f : ℕ → WifiRule) (i : ℕ)
    → distinct is ≡ true
    → count_item item is f i ≡ (if includes is i then counted_once item (f i) else f i)
unfolding distinct includes count_item
count_item-at item [] f i h = refl
count_item-at item (j ∷ is) f i h =
    let r = f j in
    let g = put f j (record r { ref_count = int_add r.ref_count 1 }) in
    ground (
      arith,
      count_item-at item is (if matches r item.ssid item.bssid item.level then g else f) i,
      h,
    )

unfoldable counted_all : List ScanResult → WifiRule → WifiRule
counted_all [] r = r
counted_all (item ∷ items) r = counted_all items (counted_once item r)

matched-counted_once :
    (item : ScanResult) (r : WifiRule) (items : List ScanResult)
    → matched (counted_once item r) items ≡ matched r items
unfolding matched
matched-counted_once item r [] = refl
matched-counted_once item r (x ∷ items) = ground (arith, matched-counted_once item r items)

counted_all-matched :
    (items : List ScanResult) (r : WifiRule)
    → r.ref_count + length items < 4294967296
    → counted_all items r ≡ record r { ref_count = r.ref_count + matched r items }
unfolding counted_all matched int_add
counted_all-matched [] r h = ap (λ n. record r { ref_count = n }) (omega arith)
counted_all-matched (item ∷ items) r h =
    ground
      (arith, counted_all-matched items (counted_once item r), matched-counted_once item r items)

-- A rule as the scan starts.
abbrev started : WifiRule → WifiRule
started r = record r { last_ref_count = r.ref_count; ref_count = 0 }

matched-started :
    (r : WifiRule) (items : List ScanResult) → matched (started r) items ≡ matched r items
unfolding matched
matched-started r [] = refl
matched-started r (item ∷ items) = ground (arith, matched-started r items)

-- No set counts as the empty one.
list_or_empty :
    (item : ScanResult) (f : ℕ → WifiRule) (o : Option (List ℕ))
    → elim o [ none ↦ f | some l ↦ count_item item l f ]
      ≡ count_item item (elim o [ none ↦ [] | some l ↦ l ]) f
unfolding count_item
list_or_empty item f none = refl
list_or_empty item f (some l) = refl

module _ (w : WifiContext) (x : Indexed w) where
  -- One network, for a rule and for an object that is no rule.
  abbrev counted_item : ScanResult → (ℕ → WifiRule) → ℕ → WifiRule
  counted_item item f = elim (w.ssid_to_rules (some item.ssid)) [
    | none ↦ f
    | some l ↦ count_item item l f
  ]

  counted_item-list :
      (item : ScanResult) (f : ℕ → WifiRule)
      → counted_item item f ≡ count_item item (rules_of w (some item.ssid)) f
  unfolding rules_of
  counted_item-list item f = list_or_empty item f (w.ssid_to_rules (some item.ssid))

  counted_item-rule :
      (item : ScanResult) (f : ℕ → WifiRule) (i : ℕ)
      → includes w.rules i ≡ true
      → (f i).ssid ≡ (w.rule i).ssid
      → counted_item item f i ≡ counted_once item (f i)
  unfolding matches
  counted_item-rule item f i h same = ground (
    arith,
    ap (λ g. g i) (counted_item-list item f),
    count_item-at item (rules_of w (some item.ssid)) f i (x.once (some item.ssid)),
    x.found i h,
    x.only i (some item.ssid),
    name_eq_iff (some item.ssid) (f i).ssid,
    name_eq_iff (w.rule i).ssid (some item.ssid),
    same,
  )

  count_items-rule :
      (items : List ScanResult) (f : ℕ → WifiRule) (i : ℕ)
      → includes w.rules i ≡ true
      → (f i).ssid ≡ (w.rule i).ssid
      → count_items w.ssid_to_rules items f i ≡ counted_all items (f i)
  unfolding count_items counted_all
  count_items-rule [] f i h same = refl
  count_items-rule (item ∷ items) f i h same =
      let here = counted_item-rule item f i h same in
      count_items-rule items (counted_item item f) i h (ground (arith, here, same))
      ∙ ap (counted_all items) here

  -- After a scan with a number of networks that an int can count, the count of each rule is the
  -- number of the networks that it matches, and its last count is the count that it had.
  pub counted_rules-matched :
      (result : List ScanResult) (i : ℕ)
      → length result < 2147483648
      → includes w.rules i ≡ true
      → counted_rules result w i ≡ record (w.rule i) {
        last_ref_count = (w.rule i).ref_count;
        ref_count = matched (w.rule i) result;
      }
  unfolding counted_rules
  counted_rules-matched result i bound h =
      let r = w.rule i in
      let at_start : start_counts w.rules w.rule i ≡ started r =
        ground (arith, start_counts-at w.rules w.rule i x.rules_once, h) in
      let no_more : 0 + matched (started r) result ≡ matched r result =
        omega (arith, matched-started r result) in
      count_items-rule result (start_counts w.rules w.rule) i h (ap (λ q. q.ssid) at_start)
      ∙ ap (counted_all result) at_start
      ∙ counted_all-matched result (started r) (omega (arith, bound))
      ∙ ap (λ n. record r { last_ref_count = r.ref_count; ref_count = n }) no_more
