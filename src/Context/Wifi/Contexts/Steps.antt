-- ===== src/Context/Wifi/Contexts/Steps.antt =====
-- WifiContext and SmartContext together: the steps that rules and scans take them through.
use sctx.Context.Engine.{Engine, includes, put, value_of}
use sctx.Context.Engine.Parse.Valid.{Valid}
use sctx.Context.Smart.{SmartContext}
use sctx.Context.Smart.Counted.{is_count, count, value_of-count}
use sctx.Context.Text.{has_at}
use sctx.Context.Wifi.{
  WifiRule, WifiContext, ScanResult, is_positive, rules_of, add_rule, remove_rule, without,
  set_wifi_scan_result,
}
use sctx.Context.Wifi.Contexts.{now}
use sctx.Context.Wifi.Contexts.Changing.{total}
use sctx.Context.Wifi.Contexts.Scanned.{InStep, IsScanned, set_wifi_scan_result-IsScanned}
use sctx.Context.Wifi.Index.{
  distinct, is_kept, add_rule-Indexed, removed, removed-Indexed, includes-without,
}
use sctx.Context.Wifi.Removal.{remove_rule-absent, remove_rule-present}
use sctx.Prelude.{
  ℕ, suc, ◌<◌, ◌≤◌, String, ◌≡◌, refl, true, false, none, some, List, [], ◌∷◌, ltb, length, arith,
  subst, Bool-cases, inl, inr,
}

pub total-put :
    (f : ℕ → WifiRule) (i : ℕ) (r : WifiRule) (is : List ℕ) (n : String)
    → includes is i ≡ false
    → total now (put f i r) is n ≡ total now f is n
unfolding total includes
total-put f i r [] n h = refl
total-put f i r (j ∷ is) n h = ground (arith, total-put f i r is n, h)

total-without :
    (f : ℕ → WifiRule) (i : ℕ) (is : List ℕ) (n : String)
    → (f i).ref_count ≡ 0
    → total now f (without is i) n ≡ total now f is n
unfolding total without now is_positive
total-without f i [] n h = refl
total-without f i (j ∷ is) n h = ground (arith, total-without f i is n, h)

length-without : (is : List ℕ) (i : ℕ) → length (without is i) ≤ length is
unfolding without
length-without [] i = omega arith
length-without (j ∷ is) i = ground (arith, length-without is i)

module _ (w : WifiContext) (s : SmartContext) (x : InStep w s) (i : ℕ) where
  pub add_rule-InStep : suc (length w.rules) < 2147483648 → InStep (add_rule i w) s
  unfolding add_rule total now includes is_positive
  add_rule-InStep room = record {
    indexed = add_rule-Indexed i w x.indexed;
    well_formed = x.well_formed;
    few = ground (arith, x.few, room);
    range = λ j h. ground (arith, x.range j, h);
    counts = λ n. ground (
      arith,
      x.counts n,
      total-put w.rule i (record (w.rule i) { last_ref_count = 0; ref_count = 0 }) w.rules n,
    );
  }

  removed-InStep : (w.rule i).ref_count ≡ 0 → InStep (removed i w) s
  removed-InStep idle = record {
    indexed = removed-Indexed i w x.indexed;
    well_formed = x.well_formed;
    few = omega (arith, x.few, length-without w.rules i);
    range = λ j h. ground (arith, x.range j, h, includes-without w.rules i j);
    counts = λ n. ground (arith, x.counts n, total-without w.rule i w.rules n idle);
  }

  remove_rule-InStep :
      (w' : WifiContext) → (w.rule i).ref_count ≡ 0 → remove_rule i w ≡ some w' → InStep w' s
  remove_rule-InStep w' idle h = elim (Bool-cases (includes w.rules i)) [
    | inl there ↦
        subst (λ v. InStep v s) (ground (arith, h, remove_rule-present i w x.indexed there))
          (removed-InStep idle)
    | inr absent ↦
        subst (λ v. InStep v s) (ground (arith, h, remove_rule-absent i w x.indexed absent)) x
  ]

-- A step of the rules and the contexts.
pub data Step (w : WifiContext) (s : SmartContext) : WifiContext → SmartContext → Type 0 where
  added : (i : ℕ) → suc (length w.rules) < 2147483648 → Step w s (add_rule i w) s
  -- A rule that matches nothing now is removed.
  removed_idle :
      (i : ℕ) (w' : WifiContext)
      → (w.rule i).ref_count ≡ 0
      → remove_rule i w ≡ some w'
      → Step w s w' s
  scanned :
      (result : List ScanResult) (w' : WifiContext) (s' : SmartContext)
      → length result < 2147483648
      → set_wifi_scan_result result w s ≡ some (w', s')
      → Step w s w' s'

Step-InStep :
    {w w' : WifiContext} {s s' : SmartContext} → Step w s w' s' → InStep w s → InStep w' s'
Step-InStep {w} {s = s} (added i room) x = add_rule-InStep w s x i room
Step-InStep {w} {s = s} (removed_idle i w' idle h) x = remove_rule-InStep w s x i w' idle h
Step-InStep {w} {s = s} (scanned result w' s' bound h) x =
    (subst (IsScanned w result) h (set_wifi_scan_result-IsScanned w s x result bound)).in_step

-- onCreate: no rules, and no context entered.
abbrev pub no_rules : (ℕ → WifiRule) → WifiContext
no_rules f = record {
  ssid_to_rules = λ ssid. none;
  rules = [];
  rule = f;
  wifi_last_scan_result = none;
}

abbrev pub no_contexts : Engine → SmartContext
no_contexts e = record { native_context_ref = λ n. none; eng = e; notices = []; lua_codes = [] }

-- The states that the steps reach. The rule objects are `f`, and the engine is `e`.
pub data Reached (f : ℕ → WifiRule) (e : Engine) : WifiContext → SmartContext → Type 0 where
  created : Reached f e (no_rules f) (no_contexts e)
  stepped :
      {w w' : WifiContext} {s s' : SmartContext}
      → Reached f e w s
      → Step w s w' s'
      → Reached f e w' s'

pub created-InStep :
    (f : ℕ → WifiRule) (e : Engine)
    → Valid e
    → ((n : String) → has_at n ≡ true → value_of e n ≡ false)
    → InStep (no_rules f) (no_contexts e)
unfolding includes rules_of distinct is_kept is_count count total
created-InStep f e valid out = record {
  indexed = record {
    found = λ i h. ground (arith, h);
    only = λ i ssid h. ground (arith, h);
    once = λ ssid. refl;
    rules_once = refl;
    kept = λ ssid. refl;
  };
  well_formed = record { valid = valid; counts = λ n. refl; entered = out };
  few = omega arith;
  range = λ i h. ground (arith, h);
  counts = λ n. refl;
}

pub Reached-InStep :
    (f : ℕ → WifiRule) (e : Engine) (w : WifiContext) (s : SmartContext)
    → Valid e
    → ((n : String) → has_at n ≡ true → value_of e n ≡ false)
    → Reached f e w s
    → InStep w s
Reached-InStep f e w s valid out created = created-InStep f e valid out
Reached-InStep f e w s valid out (stepped {w = v} {s = t} r step) =
    Step-InStep step (Reached-InStep f e v t valid out r)

-- From a valid engine with no system name true and no rules, by rules that are added, rules without
-- a match that are removed, and scans: a system name is true exactly when one of the rules of that
-- context has a count above 0.
pub Reached-entered :
    (f : ℕ → WifiRule) (e : Engine) (w : WifiContext) (s : SmartContext) (n : String)
    → Valid e
    → ((m : String) → has_at m ≡ true → value_of e m ≡ false)
    → Reached f e w s
    → has_at n ≡ true
    → value_of s.eng n ≡ ltb 0 (total now w.rule w.rules n)
Reached-entered f e w s n valid out r at =
    let x = Reached-InStep f e w s valid out r in
    ground (arith, value_of-count s n x.well_formed at, x.counts n)
