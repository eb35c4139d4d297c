-- ===== src/Context/Wifi/Timer.antt =====
-- WifiScanPusher of WifiContext, which asks for scans, with bind and unbind.
use mathlib.Core.List.{◌++◌ as ◌+++◌}
use sctx.Context.Engine.{put}
use sctx.Prelude.Options.{is_some}
use sctx.Prelude.{
  ℕ, suc, ◌≡◌, ◌≢◌, refl, Bool, true, false, not, ◌||◌, Option, none, some, List, [], ◌∷◌, ◌==◌,
  if◌then◌else◌, Option-cases, inl, inr, arith, subst,
}

-- Pushers are numbers; `waiting` are those that the thread of the service is to run. `registered` says
-- whether the receiver of broadcasts is, and `scans` counts the calls of startScan.
pub record ScanTimer : Type 0 where
  pub pusher : Option ℕ
  pub active : ℕ → Bool
  pub next_pusher : ℕ
  pub registered : Bool
  pub scans : ℕ
  pub waiting : List ℕ

abbrev pub new_timer : ScanTimer
new_timer = record {
  pusher = none;
  active = λ p. false;
  next_pusher = 0;
  registered = false;
  scans = 0;
  waiting = [];
}

unfoldable pub bind : ScanTimer → ScanTimer
bind t = record t {
  pusher = some t.next_pusher;
  active = put t.active t.next_pusher true;
  next_pusher = suc t.next_pusher;
  registered = true;
  waiting = t.waiting +++ (t.next_pusher ∷ []);
}

-- unbind, with none where there is no pusher or no receiver.
unfoldable pub unbind : ScanTimer → Option ScanTimer
unbind t = elim t.pusher [
  | none ↦ none
  | some p ↦
      if t.registered
      then some (record t { pusher = none; active = put t.active p false; registered = false })
      else none
]

-- A pusher that is taken out of those that wait; `enabled` is the state of the wifi.
unfoldable pub run : Bool → ℕ → ScanTimer → ScanTimer
run enabled p t =
    if t.active p
    then record t {
      scans = if enabled then suc t.scans else t.scans;
      waiting = t.waiting +++ (p ∷ []);
    }
    else t

-- bind is called once for each unbind.
pub data Step (t : ScanTimer) : ScanTimer → Type 0 where
  bound : t.pusher ≡ none → Step t (bind t)
  unbound : (u : ScanTimer) → unbind t ≡ some u → Step t u
  ran :
      (enabled : Bool) (xs : List ℕ) (p : ℕ) (ys : List ℕ)
      → t.waiting ≡ xs +++ (p ∷ ys)
      → Step t (run enabled p (record t { waiting = xs +++ ys }))

pub data Reached : ScanTimer → Type 0 where
  created : Reached new_timer
  stepped : {t u : ScanTimer} → Reached t → Step t u → Reached u

unfoldable pub is_pusher : Option ℕ → ℕ → Bool
is_pusher none p = false
is_pusher (some q) p = q == p

-- Only the pusher that is bound is active, and the receiver is registered with it.
pub record Timing (t : ScanTimer) : Type 0 where
  pub current : (p : ℕ) → (not (t.active p) || is_pusher t.pusher p) ≡ true
  pub received : t.registered ≡ is_some t.pusher

Timing-bound : (t : ScanTimer) → Timing t → t.pusher ≡ none → Timing (bind t)
unfolding bind is_pusher
Timing-bound t x h = record { current = λ p. ground (arith, x.current p, h); received = refl }

unbind_there :
    (t u : ScanTimer) (p : ℕ)
    → t.pusher ≡ some p
    → unbind t ≡ some u
    → (record t { pusher = none; active = put t.active p false; registered = false }) ≡ u
unfolding unbind
unbind_there t u p h e = ground (arith, h, e)

unbind-none : (t u : ScanTimer) → t.pusher ≡ none → unbind t ≢ some u
unfolding unbind
unbind-none t u h e = ground (arith, h, e)

Timing-unbound : (t u : ScanTimer) → Timing t → unbind t ≡ some u → Timing u
unfolding is_pusher
Timing-unbound t u x e = elim (Option-cases t.pusher) [
  | inl free ↦ absurd (unbind-none t u free e)
  | inr (p, there) ↦
      subst Timing (unbind_there t u p there e)
        (record { current = λ q. ground (arith, x.current q, there); received = refl })
]

Timing-run : (enabled : Bool) (p : ℕ) (t : ScanTimer) → Timing t → Timing (run enabled p t)
unfolding run
Timing-run enabled p t x = record {
  current = λ q. ground (arith, x.current q);
  received = ground (arith, x.received);
}

pub Reached-Timing : {t : ScanTimer} → Reached t → Timing t
unfolding is_pusher
Reached-Timing created = record { current = λ p. refl; received = refl }
Reached-Timing (stepped {t = t} r (bound h)) = Timing-bound t (Reached-Timing r) h
Reached-Timing (stepped {t = t} r (unbound u e)) = Timing-unbound t u (Reached-Timing r) e
Reached-Timing (stepped {t = t} r (ran enabled xs p ys e)) =
    let x : Timing t = Reached-Timing r in
    Timing-run enabled p (record t { waiting = xs +++ ys })
      (record { current = x.current; received = x.received })
