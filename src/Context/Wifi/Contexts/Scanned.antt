-- ===== src/Context/Wifi/Contexts/Scanned.antt =====
-- setWifiScanResult of WifiContext as a whole, and the contexts after it.
use sctx.Context.Engine.{includes, value_of}
use sctx.Context.Smart.{SmartContext}
use sctx.Context.Smart.Counted.{WellFormed, count, value_of-count}
use sctx.Context.Text.{has_at}
use sctx.Context.Wifi.{
  WifiRule, WifiContext, ScanResult, is_positive, rules_of, change_contexts, counted_rules,
  set_wifi_scan_result,
}
use sctx.Context.Wifi.Contexts.{now, before, in_range}
use sctx.Context.Wifi.Contexts.Changing.{
  total, all_in_range, Settled, IsSettled, change_contexts-IsSettled,
}
use sctx.Context.Wifi.Index.{Indexed}
use sctx.Context.Wifi.Scan.{matched, counted_rules-matched}
use sctx.Prelude.{
  ℕ, ◌<◌, ◌≤◌, String, ◌≡◌, refl, Bool, true, false, ◌||◌, ◌&&◌, Option, none, some, List, [], ◌∷◌,
  ltb, str_eq, length, arith,
}
use sctx.Prelude.Options.{◌>>=◌}

-- The contexts of SmartContext are those of the rules that matched in the last scan.
pub record InStep (w : WifiContext) (s : SmartContext) : Type 0 where
  pub indexed : Indexed w
  pub well_formed : WellFormed s
  pub few : length w.rules < 2147483648
  pub range : (i : ℕ) → includes w.rules i ≡ true → (w.rule i).ref_count < 2147483648
  pub counts : (n : String) → count s n ≡ total now w.rule w.rules n

-- Whether a rule of the context matches a network of the scan.
unfoldable pub any_match : (ℕ → WifiRule) → List ℕ → List ScanResult → String → Bool
unfolding matched
any_match f [] result n = false
any_match f (i ∷ is) result n =
    (str_eq (f i).result_context n && ltb 0 (matched (f i) result)) || any_match f is result n

-- What a scan leaves.
pub record Scanned (w : WifiContext) (result : List ScanResult) (w' : WifiContext)
    (s' : SmartContext) : Type 0 where
  pub in_step : InStep w' s'
  pub rules : w'.rules ≡ w.rules
  pub last : w'.wifi_last_scan_result ≡ some result
  pub counted :
      (i : ℕ) → includes w.rules i ≡ true → (w'.rule i).ref_count ≡ matched (w.rule i) result
  pub entered :
      (n : String) → has_at n ≡ true → value_of s'.eng n ≡ any_match w.rule w.rules result n

abbrev pub IsScanned : WifiContext → List ScanResult → Option (WifiContext × SmartContext) → Type 0
IsScanned w result none = ⊥
IsScanned w result (some r) = Scanned w result r.0 r.1

matched-le : (r : WifiRule) (result : List ScanResult) → matched r result ≤ length result
unfolding matched
matched-le r [] = omega arith
matched-le r (item ∷ result) = ground (arith, matched-le r result)

includes-tail : (i j : ℕ) (is : List ℕ) → includes is j ≡ true → includes (i ∷ is) j ≡ true
unfolding includes
includes-tail i j is h = ground (arith, h)

includes-head : (i : ℕ) (is : List ℕ) → includes (i ∷ is) i ≡ true
unfolding includes
includes-head i is = ground arith

module _ (w : WifiContext) (s : SmartContext) (x : InStep w s) (result : List ScanResult)
    (bound : length result < 2147483648) where
  abbrev f : ℕ → WifiRule
  f = counted_rules result w

  abbrev after : WifiContext
  after = record w { rule = f; wifi_last_scan_result = some result }

  at :
      (i : ℕ)
      → includes w.rules i ≡ true
      → f i ≡ record (w.rule i) {
        last_ref_count = (w.rule i).ref_count;
        ref_count = matched (w.rule i) result;
      }
  at i h = counted_rules-matched w x.indexed result i bound h

  total-before :
      (is : List ℕ) (n : String)
      → ((i : ℕ) → includes is i ≡ true → includes w.rules i ≡ true)
      → total before f is n ≡ total now w.rule is n
  unfolding total before now
  total-before [] n sub = refl
  total-before (i ∷ is) n sub = ground (
    arith,
    total-before is n (λ j h. sub j (includes-tail i j is h)),
    at i (sub i (includes-head i is)),
  )

  all_in_range-counted :
      (is : List ℕ)
      → ((i : ℕ) → includes is i ≡ true → includes w.rules i ≡ true)
      → all_in_range f is ≡ true
  unfolding all_in_range in_range
  all_in_range-counted [] sub = refl
  all_in_range-counted (i ∷ is) sub = ground (
    arith,
    all_in_range-counted is (λ j h. sub j (includes-tail i j is h)),
    at i (sub i (includes-head i is)),
    x.range i (sub i (includes-head i is)),
    matched-le (w.rule i) result,
    bound,
  )

  total-now :
      (is : List ℕ) (n : String)
      → ((i : ℕ) → includes is i ≡ true → includes w.rules i ≡ true)
      → ltb 0 (total now f is n) ≡ any_match w.rule is result n
  unfolding total now any_match is_positive
  total-now [] n sub = refl
  total-now (i ∷ is) n sub = ground (
    arith,
    total-now is n (λ j h. sub j (includes-tail i j is h)),
    at i (sub i (includes-head i is)),
    matched-le (w.rule i) result,
    bound,
  )

  after-Indexed : Indexed after
  unfolding rules_of
  after-Indexed = record {
    found = λ i h. ground (arith, x.indexed.found i h, at i h);
    only = λ i ssid h. ground (arith, x.indexed.only i ssid, at i, h);
    once = x.indexed.once;
    rules_once = x.indexed.rules_once;
    kept = x.indexed.kept;
  }

  Scanned-Settled : (s' : SmartContext) → Settled (λ n. 0) f w.rules s' → Scanned w result after s'
  Scanned-Settled s' done = record {
    in_step = record {
      indexed = after-Indexed;
      well_formed = done.well_formed;
      few = x.few;
      range = λ i h. ground (arith, at i h, matched-le (w.rule i) result, bound);
      counts = λ n. omega (arith, done.counts n);
    };
    rules = refl;
    last = refl;
    counted = λ i h. ground (arith, at i h);
    entered = λ n sys. ground (
      arith,
      value_of-count s' n done.well_formed sys,
      done.counts n,
      total-now w.rules n (λ i h. h),
    );
  }

  IsScanned-Settled :
      (o : Option SmartContext)
      → IsSettled (λ n. 0) f w.rules o
      → IsScanned w result (o >>= λ s'. some (after, s'))
  IsScanned-Settled none done = done
  IsScanned-Settled (some s') done = Scanned-Settled s' done

  -- On rules and contexts that are in step, setWifiScanResult with fewer than 2 ^ 31 networks ends
  -- without an exception. It keeps the rules, counts for each the networks that it matches, and
  -- leaves a system name entered exactly when a rule of that context matches one of the networks;
  -- rules and contexts are in step again.
  pub set_wifi_scan_result-IsScanned : IsScanned w result (set_wifi_scan_result result w s)
  unfolding set_wifi_scan_result
  set_wifi_scan_result-IsScanned = IsScanned-Settled (change_contexts f w.rules s) (
      change_contexts-IsSettled f (λ n. 0) w.rules s (all_in_range-counted w.rules (λ i h. h))
        (λ n. omega (arith, x.few)) x.well_formed
        (λ n. omega (arith, x.counts n, total-before w.rules n (λ i h. h))))
