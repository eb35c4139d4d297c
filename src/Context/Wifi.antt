-- ===== src/Context/Wifi.antt =====
-- WifiContext and WifiRule of src/org/sctx: the rules that turn the networks of a scan into native
-- contexts.
pub mod Index
pub mod Removal
pub mod Scan
pub mod Contexts
pub mod Timer
pub mod Listener
pub mod Files
use sctx.Context.Engine.Names.{
  has_name, is_named, is_named-at, is_named-all, all_named, all_named-has_name,
}
use sctx.Context.Engine.{includes, put}
use sctx.Context.Smart.{SmartContext, int_add, get_native_context, put_native_context}
use sctx.Prelude.{
  ℕ, ℤ, pos, negsuc, ◌+◌, String, Bool, true, false, not, ◌||◌, ◌&&◌, Option, none, some, List, [],
  ◌∷◌, ◌==◌, ltb, str_eq, if◌then◌else◌,
}
use sctx.Prelude.Options.{◌>>=◌, ◌>>◌}

-- LIST_TYPE_WHITE and the other types.
pub data ListType : Type 0 where
  white black : ListType

-- `ssid` and `essid_list` are none for null. The counts are ints by their number modulo 2 ^ 32.
pub record WifiRule : Type 0 where
  pub ssid : Option String
  pub result_context : String
  pub level_threshold : ℤ
  pub list_type : ListType
  pub essid_list : Option (List String)
  pub last_ref_count : ℕ
  pub ref_count : ℕ

-- android.net.wifi.ScanResult
pub record ScanResult : Type 0 where
  pub ssid : String
  pub bssid : String
  pub level : ℤ

-- A rule object is a number, and `rule` says what it holds. A set is a list, in the order of its
-- iterator.
pub record WifiContext : Type 0 where
  pub ssid_to_rules : Option String → Option (List ℕ)
  pub rules : List ℕ
  pub rule : ℕ → WifiRule
  pub wifi_last_scan_result : Option (List ScanResult)

-- `i > j` on int
unfoldable pub greater : ℤ → ℤ → Bool
greater (pos m) (pos n) = ltb n m
greater (pos m) (negsuc n) = true
greater (negsuc m) (pos n) = false
greater (negsuc m) (negsuc n) = ltb m n

unfoldable pub in_essid_list : Option (List String) → String → Bool
unfolding has_name
in_essid_list none essid = false
in_essid_list (some l) essid = has_name l essid

unfoldable pub passes_list : ListType → Bool → Bool
passes_list white listed = listed
passes_list black listed = not listed

-- `equals` of names that may be null.
unfoldable pub name_eq : Option String → Option String → Bool
name_eq none none = true
name_eq (some a) (some b) = str_eq a b
name_eq _ _ = false

-- WifiRule.match
unfoldable pub matches : WifiRule → String → String → ℤ → Bool
unfolding greater in_essid_list passes_list name_eq
matches r ssid essid level =
    if not (name_eq (some ssid) r.ssid)
    then false
    else passes_list r.list_type (in_essid_list r.essid_list essid)
      && greater level r.level_threshold

unfoldable pub put_rules :
    (Option String → Option (List ℕ))
    → Option String
    → Option (List ℕ)
    → Option String
    → Option (List ℕ)
unfolding name_eq
put_rules f k o j = if name_eq k j then o else f j

unfoldable pub rules_of : WifiContext → Option String → List ℕ
rules_of w ssid = elim (w.ssid_to_rules ssid) [ none ↦ [] | some l ↦ l ]

-- addRule
unfoldable pub add_rule : ℕ → WifiContext → WifiContext
unfolding includes put_rules rules_of
add_rule i w =
    let r = w.rule i in
    if includes w.rules i then w else (record w {
      rule = put w.rule i (record r { last_ref_count = 0; ref_count = 0 });
      ssid_to_rules = put_rules w.ssid_to_rules r.ssid (
          some
            (if includes (rules_of w r.ssid) i then rules_of w r.ssid else i ∷ rules_of w r.ssid));
      rules = i ∷ w.rules;
    })

unfoldable pub without : List ℕ → ℕ → List ℕ
without [] i = []
without (j ∷ js) i = let rest = without js i in if j == i then rest else j ∷ rest

-- The set as it stays in the map: not where it is empty.
unfoldable pub non_empty : List ℕ → Option (List ℕ)
non_empty [] = none
non_empty (i ∷ is) = some (i ∷ is)

-- removeRule, with none where its set is null.
unfoldable pub remove_rule : ℕ → WifiContext → Option WifiContext
unfolding includes without put_rules non_empty
remove_rule i w =
    let ssid = (w.rule i).ssid in
    if not (includes w.rules i) then some w else (do
      l ← w.ssid_to_rules ssid
      some (record w {
        ssid_to_rules = put_rules w.ssid_to_rules ssid (non_empty (without l i));
        rules = without w.rules i;
      }))

-- The names of removeRules are none for null.
unfoldable pub selects : Option String → String → Bool
selects none s = true
selects (some n) s = str_eq n s

unfoldable pub selects_name : Option String → Option String → Bool
unfolding name_eq
selects_name none s = true
selects_name (some n) s = name_eq (some n) s

-- The rules that removeRules collects.
unfoldable pub selected : Option String → Option String → (ℕ → WifiRule) → List ℕ → List ℕ
unfolding selects selects_name
selected symbol_name ssid f [] = []
selected symbol_name ssid f (i ∷ is) =
    let rest = selected symbol_name ssid f is in
    if selects symbol_name (f i).result_context && selects_name ssid (f i).ssid
    then i ∷ rest
    else rest

unfoldable pub remove_all : List ℕ → WifiContext → Option WifiContext
unfolding remove_rule
remove_all [] w = some w
remove_all (i ∷ is) w = do w' ← remove_rule i w; remove_all is w'

-- removeRules
unfoldable pub remove_rules : Option String → Option String → WifiContext → Option WifiContext
unfolding selected remove_all
remove_rules symbol_name ssid w = remove_all (selected symbol_name ssid w.rule w.rules) w

-- The first loop of setWifiScanResult.
unfoldable pub start_counts : List ℕ → (ℕ → WifiRule) → ℕ → WifiRule
start_counts [] f = f
start_counts (i ∷ is) f =
    let g = start_counts is f in
    put g i (record (g i) { last_ref_count = (g i).ref_count; ref_count = 0 })

-- The loop over the rules of the name of a scan result.
unfoldable pub count_item : ScanResult → List ℕ → (ℕ → WifiRule) → ℕ → WifiRule
unfolding matches int_add
count_item item [] f = f
count_item item (i ∷ is) f =
    let r = f i in
    let g = put f i (record r { ref_count = int_add r.ref_count 1 }) in
    count_item item is (if matches r item.ssid item.bssid item.level then g else f)

unfoldable pub count_items :
    (Option String → Option (List ℕ)) → List ScanResult → (ℕ → WifiRule) → ℕ → WifiRule
unfolding count_item
count_items m [] f = f
count_items m (item ∷ items) f =
    count_items m items (elim (m (some item.ssid)) [ none ↦ f | some l ↦ count_item item l f ])

-- `n > 0` for an int
unfoldable pub is_positive : ℕ → Bool
is_positive n = ltb 0 n && ltb n 2147483648

-- The body of the last loop of setWifiScanResult.
unfoldable pub change_context : WifiRule → SmartContext → Option SmartContext
unfolding is_positive get_native_context put_native_context
change_context r s =
    if (r.last_ref_count == 0) && is_positive r.ref_count
    then get_native_context r.result_context s
    else (if is_positive r.last_ref_count && (r.ref_count == 0)
        then put_native_context r.result_context s
        else some s)

unfoldable pub change_contexts : (ℕ → WifiRule) → List ℕ → SmartContext → Option SmartContext
unfolding change_context
change_contexts f [] s = some s
change_contexts f (i ∷ is) s = do s' ← change_context (f i) s; change_contexts f is s'

-- The rules as the first two loops of setWifiScanResult leave them.
unfoldable pub counted_rules : List ScanResult → WifiContext → ℕ → WifiRule
unfolding start_counts count_items
counted_rules result w = count_items w.ssid_to_rules result (start_counts w.rules w.rule)

-- setWifiScanResult
unfoldable pub set_wifi_scan_result :
    List ScanResult → WifiContext → SmartContext → Option (WifiContext × SmartContext)
unfolding counted_rules change_contexts
set_wifi_scan_result result w s = do
  s' ← change_contexts (counted_rules result w) w.rules s
  some (record w { rule = counted_rules result w; wifi_last_scan_result = some result }, s')
