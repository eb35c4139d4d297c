-- ===== src/Context/Screen/Networks.antt =====
-- From the networks of a scan to the tags of EntryActivity.
use sctx.Context.Screen.{run_tasks}
use sctx.Context.Screen.Copies.{one_if, copies, extra, surplus}
use sctx.Context.Screen.Shown.{shown_in, resumed_in}
use sctx.Context.Screen.Steps.{App, quiet, worked, scanned, Reached, stepped}
use sctx.Context.Screen.Synced.{Reached-visible}
use sctx.Context.Screen.Tags.{visible_in}
use sctx.Context.Smart.{SmartContext}
use sctx.Context.Text.{has_at}
use sctx.Context.Wifi.{WifiContext, ScanResult, set_wifi_scan_result}
use sctx.Context.Wifi.Contexts.Scanned.{
  InStep, any_match, IsScanned, set_wifi_scan_result-IsScanned,
}
use sctx.Prelude.{
  ◌<◌, String, ◌≡◌, refl, Bool, true, Option, none, some, List, [], length, ◌∙◌, ◌+◌, ap,
}

-- When the tasks are done, the tags of the system names are those of the rules that match.
abbrev pub IsShown : Bool → App → List ScanResult → Option (WifiContext × SmartContext) → Type 0
IsShown c a result none = ⊥
IsShown c a result (some r) =
    (n : String)
    → has_at n ≡ true
    → let done = (run_tasks c (worked a r.0 r.1).ui_queue a.screen).ea in
      (visible_in done n ≡ any_match a.wifi.rule a.wifi.rules result n)
      × (copies done n
          ≡ one_if (any_match a.wifi.rule a.wifi.rules result n)
            + surplus (worked a r.0 r.1).ui_queue (shown_in a.screen.ea) n (extra a.screen.ea n))

module _ (c : Bool) (a : App) (r : Reached c a) (live : resumed_in a.screen.ea ≡ true)
    (idle : a.resets ≡ []) (x : InStep a.wifi (quiet a.service)) (result : List ScanResult)
    (bound : length result < 2147483648) where
  IsShown-scanned :
      (o : Option (WifiContext × SmartContext))
      → set_wifi_scan_result result a.wifi (quiet a.service) ≡ o
      → IsScanned a.wifi result o
      → IsShown c a result o
  IsShown-scanned none e done = done
  IsShown-scanned (some (w, s)) e done = λ n at.
      let (shows, counts) =
        Reached-visible c (worked a w s) n (stepped r (scanned result w s e)) live idle in
      (
        shows ∙ done.entered n at,
        counts
            ∙ ap
                (λ v.
                  one_if v
                  + surplus (worked a w s).ui_queue (shown_in a.screen.ea) n (extra a.screen.ea n))
                (done.entered n at),
      )

  -- In a state that is reached, with EntryActivity resumed and no call of resetUI waiting, where the
  -- rules and the contexts are in step: setWifiScanResult with fewer than 2 ^ 31 networks ends without
  -- an exception, and when the UI thread has done its tasks, a system name has its tag in the map
  -- and in the container exactly when a rule of that context matches one of the networks. The container has one tag
  -- of such a name and none of another system name, besides the surplus that the queue and the screen
  -- had, as after any tasks.
  pub set_wifi_scan_result-IsShown :
      IsShown c a result (set_wifi_scan_result result a.wifi (quiet a.service))
  set_wifi_scan_result-IsShown =
      IsShown-scanned (set_wifi_scan_result result a.wifi (quiet a.service)) refl
        (set_wifi_scan_result-IsScanned a.wifi (quiet a.service) x result bound)
