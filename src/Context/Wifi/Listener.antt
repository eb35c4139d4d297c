-- ===== src/Context/Wifi/Listener.antt =====
-- WifiListener.onReceive of WifiContext: the broadcasts that set the scan result.
use sctx.Context.Engine.{value_of}
use sctx.Context.Smart.{SmartContext}
use sctx.Context.Text.{has_at}
use sctx.Context.Wifi.{WifiRule, WifiContext, ScanResult, set_wifi_scan_result}
use sctx.Context.Wifi.Contexts.Scanned.{
  InStep, any_match, Scanned, IsScanned, set_wifi_scan_result-IsScanned,
}
use sctx.Context.Wifi.Scan.{matched}
use sctx.Prelude.{
  ℕ, ◌<◌, String, ◌≡◌, refl, Bool, true, false, Option, none, some, List, [], ◌∷◌, if◌then◌else◌,
  length, arith, ◌∙◌,
}
use sctx.Prelude.Options.{◌>>=◌}

-- The actions of the broadcasts.
pub data Action : Type 0 where
  state_changed rssi_changed other_action : Action

-- What the wifi manager answers: whether the wifi is enabled, and the networks of its last scan.
pub record WifiManager : Type 0 where
  pub enabled : Bool
  pub scan_results : List ScanResult

-- The state: wifiEnabled, the rules and the contexts.
abbrev pub WifiState : Type 0
WifiState = Bool × WifiContext × SmartContext

abbrev scanned_with : Bool → List ScanResult → WifiContext → SmartContext → Option WifiState
scanned_with enabled result w s = do r ← set_wifi_scan_result result w s; some (enabled, r.0, r.1)

-- onReceive
unfoldable pub on_receive : Action → WifiManager → WifiState → Option WifiState
unfolding set_wifi_scan_result
on_receive state_changed m (enabled, w, s) = scanned_with m.enabled [] w s
on_receive rssi_changed m (enabled, w, s) =
    let result = scanned_with enabled m.scan_results w s in
    if enabled then result else some (enabled, w, s)
on_receive other_action m x = some x

-- The networks that a broadcast gives to the rules, none where it gives none.
unfoldable pub networks : Action → WifiManager → Bool → Option (List ScanResult)
networks state_changed m enabled = some []
networks rssi_changed m enabled = if enabled then some m.scan_results else none
networks other_action m enabled = none

-- wifiEnabled after a broadcast: only a change of the state changes it.
unfoldable pub enabled_after : Action → WifiManager → Bool → Bool
enabled_after state_changed m enabled = m.enabled
enabled_after rssi_changed m enabled = enabled
enabled_after other_action m enabled = enabled

-- What a broadcast leaves: the flag, and with networks the scan of them, else what was there.
abbrev pub IsReceived :
    WifiContext → SmartContext → Bool → Option (List ScanResult) → Option WifiState → Type 0
IsReceived w s flag (some result) none = ⊥
IsReceived w s flag (some result) (some x) = (x.0 ≡ flag) × Scanned w result x.1 x.2
IsReceived w s flag none none = ⊥
IsReceived w s flag none (some x) = (x.0 ≡ flag) × (x.1 ≡ w) × (x.2 ≡ s)

any_match-none : (f : ℕ → WifiRule) (is : List ℕ) (n : String) → any_match f is [] n ≡ false
unfolding any_match matched
any_match-none f [] n = refl
any_match-none f (i ∷ is) n = ground (arith, any_match-none f is n)

-- The flag is `enabled`, and the context `n` is left.
abbrev pub IsLeft : Bool → String → Option WifiState → Type 0
IsLeft enabled n none = ⊥
IsLeft enabled n (some x) = (x.0 ≡ enabled) × (value_of x.2.eng n ≡ false)

module _ (w : WifiContext) (s : SmartContext) (x : InStep w s) where
  IsReceived-Scanned :
      (enabled : Bool) (result : List ScanResult) (o : Option (WifiContext × SmartContext))
      → IsScanned w result o
      → IsReceived w s enabled (some result) (o >>= λ r. some (enabled, r.0, r.1))
  IsReceived-Scanned enabled result none done = done
  IsReceived-Scanned enabled result (some r) done = (refl, done)

  -- On rules and contexts that are in step, with fewer than 2 ^ 31 networks in the manager's scan,
  -- onReceive ends without an exception: a change of the state is the scan of no network, a change of
  -- the signal is the scan of the manager's networks if the wifi was enabled, and anything else
  -- changes neither the rules nor the contexts. wifiEnabled is what the manager says after a change of
  -- the state, and stays as it was otherwise.
  pub on_receive-IsReceived :
      (action : Action) (m : WifiManager) (enabled : Bool)
      → length m.scan_results < 2147483648
      → IsReceived w s
          (enabled_after action m enabled)
          (networks action m enabled)
          (on_receive action m (enabled, w, s))
  unfolding on_receive networks enabled_after
  on_receive-IsReceived state_changed m enabled bound =
      IsReceived-Scanned m.enabled [] (set_wifi_scan_result [] w s)
        (set_wifi_scan_result-IsScanned w s x [] (omega arith))
  on_receive-IsReceived rssi_changed m true bound =
      IsReceived-Scanned true m.scan_results (set_wifi_scan_result m.scan_results w s)
        (set_wifi_scan_result-IsScanned w s x m.scan_results bound)
  on_receive-IsReceived rssi_changed m false bound = (refl, refl, refl)
  on_receive-IsReceived other_action m enabled bound = (refl, refl, refl)

  IsLeft-IsScanned :
      (enabled : Bool) (n : String) (o : Option (WifiContext × SmartContext))
      → has_at n ≡ true
      → IsScanned w [] o
      → IsLeft enabled n (o >>= λ r. some (enabled, r.0, r.1))
  IsLeft-IsScanned enabled n none at done = done
  IsLeft-IsScanned enabled n (some r) at done =
      (refl, done.entered n at ∙ any_match-none w.rule w.rules n)

  -- On rules and contexts that are in step, after a broadcast that the wifi's state changed no system
  -- name is true, and wifiEnabled is what the manager says.
  pub on_receive-IsLeft :
      (m : WifiManager) (enabled : Bool) (n : String)
      → has_at n ≡ true
      → IsLeft m.enabled n (on_receive state_changed m (enabled, w, s))
  unfolding on_receive
  on_receive-IsLeft m enabled n at =
      IsLeft-IsScanned m.enabled n (set_wifi_scan_result [] w s) at
        (set_wifi_scan_result-IsScanned w s x [] (omega arith))
