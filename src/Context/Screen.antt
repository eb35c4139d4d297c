-- ===== src/Context/Screen.antt =====
-- The screen of the application: what the runnables of notifyContext and resetUI of
-- src/org/sctx/SmartContext.java do with the views of EntryActivity and WifiRuleActivity.
pub mod Tags
pub mod Copies
pub mod Shown
pub mod Told
pub mod Followed
pub mod Steps
pub mod Posting
pub mod Synced
pub mod CatchingUp
pub mod Networks
use sctx.Context.Engine.Names.{has_name}
use sctx.Context.Engine.{Engine, put, value_of}
use sctx.Context.Wifi.{WifiRule, WifiContext, ScanResult, without}
use sctx.Prelude.{
  ℕ, suc, String, Bool, true, false, not, ◌&&◌, Option, none, some, List, [], ◌∷◌, ◌++◌, ◌==◌,
  str_eq, if◌then◌else◌,
}

-- The views that change. A tag is a number, with its text. `wifi_symbols_container` has the texts of
-- its rows.
pub record EntryActivity : Type 0 where
  pub is_resumed : Bool
  pub context_views : String → Option ℕ
  pub context_view_container : List ℕ
  pub tag_text : ℕ → String
  pub next_tag : ℕ
  pub wifi_symbols_container : List String

-- A String object, for the code compares two by `==`.
pub record StringObject : Type 0 where
  pub object : ℕ
  pub text : String

-- The rows of wifiNamesContainer, whose texts may be null, and the items of wifiSignalList.
pub record WifiRuleActivity : Type 0 where
  pub is_resumed : Bool
  pub symbol_name : StringObject
  pub wifi_names_container : List (Option String)
  pub wifi_signal_list : List String

-- The activities that are registered in Singletons.
pub record Screen : Type 0 where
  pub ea : Option EntryActivity
  pub wra : Option WifiRuleActivity

-- What resetUI collects for WifiRuleActivity where it is given a name.
pub record RuleView : Type 0 where
  pub name : StringObject
  pub ssids : List (Option String)
  pub scan : List String

pub record Reset : Type 0 where
  pub ctx_list : List String
  pub wifi_symbol_list : List String
  pub rule_view : Option RuleView

-- The runnables for the UI thread.
pub data Task : Type 0 where
  notice : String → Bool → Task
  reset : Reset → Task

unfoldable pub put_view : (String → Option ℕ) → String → Option ℕ → String → Option ℕ
put_view f k o j = if str_eq k j then o else f j

-- A new tag in the map and in the container.
unfoldable pub add_tag : String → EntryActivity → EntryActivity
unfolding put_view
add_tag n a = record a {
  context_views = put_view a.context_views n (some a.next_tag);
  context_view_container = a.context_view_container ++ a.next_tag ∷ [];
  tag_text = put a.tag_text a.next_tag n;
  next_tag = suc a.next_tag;
}

-- removeView does nothing for a view that is null or not in the container.
unfoldable pub remove_tag : String → EntryActivity → EntryActivity
unfolding put_view without
remove_tag n a = record a {
  context_view_container = elim (a.context_views n) [
    | none ↦ a.context_view_container
    | some t ↦ without a.context_view_container t
  ];
  context_views = put_view a.context_views n none;
}

-- The runnable of notifyContext, which fails at once where there is no EntryActivity.
unfoldable pub show_notice : String → Bool → Option EntryActivity → Option EntryActivity
unfolding add_tag remove_tag
show_notice n v none = none
show_notice n v (some a) = some (if v then add_tag n a else remove_tag n a)

unfoldable pub add_tags : List String → EntryActivity → EntryActivity
unfolding add_tag
add_tags [] a = a
add_tags (n ∷ ns) a = add_tags ns (add_tag n a)

-- The part of resetUI's runnable for EntryActivity.
unfoldable pub refill : Reset → Option EntryActivity → Option EntryActivity
unfolding add_tags
refill r none = none
refill r (some a) =
    if a.is_resumed
    then some (
        add_tags r.ctx_list (record a {
          context_views = λ n. none;
          context_view_container = [];
          wifi_symbols_container = r.wifi_symbol_list;
        }))
    else some a

-- The rows of WifiRuleActivity are made with EntryActivity as their context. `null_context` says
-- whether a view can be made without one: if not, the first row fails after the old ones are gone.
unfoldable pub fill_rules :
    Bool → Option EntryActivity → RuleView → WifiRuleActivity → WifiRuleActivity
fill_rules null_context (some a) v b = record b {
  wifi_names_container = v.ssids;
  wifi_signal_list = v.scan;
}
fill_rules null_context none v b = elim v.ssids [
  | [] ↦ record b { wifi_names_container = []; wifi_signal_list = v.scan }
  | ssid ∷ rest ↦
      if null_context
      then record b { wifi_names_container = ssid ∷ rest; wifi_signal_list = v.scan }
      else record b { wifi_names_container = [] }
]

-- The part of resetUI's runnable for WifiRuleActivity.
unfoldable pub reset_rules :
    Bool → Option EntryActivity → Reset → Option WifiRuleActivity → Option WifiRuleActivity
unfolding fill_rules
reset_rules null_context a r none = none
reset_rules null_context a r (some b) = elim r.rule_view [
  | none ↦ some b
  | some v ↦
      if b.is_resumed && (v.name.object == b.symbol_name.object)
      then some (fill_rules null_context a v b)
      else some b
]

unfoldable pub run_task : Bool → Task → Screen → Screen
unfolding show_notice refill reset_rules
run_task null_context (notice n v) s = record s { ea = show_notice n v s.ea }
run_task null_context (reset r) s = record s {
  ea = refill r s.ea;
  wra = reset_rules null_context s.ea r s.wra;
}

unfoldable pub run_tasks : Bool → List Task → Screen → Screen
unfolding run_task
run_tasks null_context [] s = s
run_tasks null_context (t ∷ ts) s = run_tasks null_context ts (run_task null_context t s)

-- The keys that are true, in the order of the iterator.
unfoldable pub true_names : Engine → List String → List String
unfolding value_of
true_names e [] = []
true_names e (n ∷ ns) = let rest = true_names e ns in if value_of e n then n ∷ rest else rest

-- The set of the contexts of the rules.
unfoldable pub contexts_of : (ℕ → WifiRule) → List ℕ → List String
unfolding has_name
contexts_of f [] = []
contexts_of f (i ∷ is) =
    let rest = contexts_of f is in
    if has_name rest (f i).result_context then rest else (f i).result_context ∷ rest

unfoldable pub ssids_of : String → (ℕ → WifiRule) → List ℕ → List (Option String)
ssids_of n f [] = []
ssids_of n f (i ∷ is) =
    let rest = ssids_of n f is in if str_eq (f i).result_context n then (f i).ssid ∷ rest else rest

unfoldable pub names_of_scan : List ScanResult → List String
names_of_scan [] = []
names_of_scan (r ∷ rs) = r.ssid ∷ names_of_scan rs

unfoldable pub last_scan : Option (List ScanResult) → List String
unfolding names_of_scan
last_scan none = []
last_scan (some rs) = names_of_scan rs

-- What resetUI collects and posts to the UI thread: the keys are those of the engine's symbols, in the
-- order of the iterator of keySet(), and the name that of the Bundle, where it has one.
unfoldable pub reset_ui : List String → Option StringObject → WifiContext → Engine → Reset
unfolding true_names contexts_of ssids_of last_scan
reset_ui keys name w e = record {
  ctx_list = true_names e keys;
  wifi_symbol_list = contexts_of w.rule w.rules;
  rule_view = elim name [
    | none ↦ none
    | some k ↦ some (record {
      name = k;
      ssids = ssids_of k.text w.rule w.rules;
      scan = last_scan w.wifi_last_scan_result;
    })
  ];
}
