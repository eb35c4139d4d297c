-- ===== src/Context/Motion/Sampling.antt =====
-- What holds of the monitors of MotionContext between two steps, and the lists of runnables.
use mathlib.Core.List.{◌++◌ as ◌+++◌}
use sctx.Context.Engine.{includes, put}
use sctx.Context.Motion.{Runnable, sample, stop, MotionContext}
use sctx.Prelude.Options.{is_some}
use sctx.Prelude.{
  ℕ, suc, ◌+◌, ◌<◌, ◌≡◌, refl, Bool, true, false, ◌||◌, ◌&&◌, Option, none, some, List, [], ◌∷◌,
  ◌==◌, ltb, if◌then◌else◌, arith,
}

unfoldable pub owner : Runnable → ℕ
owner (sample m) = m
owner (stop m n) = m

-- How many runnables belong to an active monitor.
unfoldable pub live : (ℕ → Bool) → List Runnable → ℕ
unfolding owner
live active [] = 0
live active (r ∷ rs) = (if active (owner r) then 1 else 0) + live active rs

-- A runnable that ends the listening of the node.
unfoldable pub stops : List Runnable → ℕ → Bool
stops [] n = false
stops (sample m ∷ rs) n = stops rs n
stops (stop m k ∷ rs) n = (k == n) || stops rs n

unfoldable pub all_owned : ℕ → List Runnable → Bool
unfolding owner
all_owned k [] = true
all_owned k (r ∷ rs) = ltb (owner r) k && all_owned k rs

unfoldable pub is_monitor : Option ℕ → ℕ → Bool
is_monitor none m = false
is_monitor (some k) m = k == m

-- The state between two steps.
pub record Sampling (c : MotionContext) : Type 0 where
  pub same : c.registered ≡ c.listening
  pub ended : (n : ℕ) → includes c.listening n ≡ true → stops c.waiting n ≡ true
  pub alive : live c.active c.waiting ≡ (if is_some c.monitor then 1 else 0)
  pub current : (m : ℕ) → c.active m ≡ true → is_monitor c.monitor m ≡ true
  pub owned : all_owned c.next_monitor c.waiting ≡ true
  pub old : (m : ℕ) → is_monitor c.monitor m ≡ true → m < c.next_monitor

pub live-append :
    (active : ℕ → Bool) (xs ys : List Runnable)
    → live active (xs +++ ys) ≡ live active xs + live active ys
unfolding live
live-append active [] ys = omega arith
live-append active (x ∷ xs) ys = omega (arith, live-append active xs ys)

pub stops-append :
    (xs ys : List Runnable) (n : ℕ) → stops (xs +++ ys) n ≡ (stops xs n || stops ys n)
unfolding stops
stops-append [] ys n = refl
stops-append (sample m ∷ xs) ys n = stops-append xs ys n
stops-append (stop m k ∷ xs) ys n = ground (arith, stops-append xs ys n)

pub all_owned-append :
    (k : ℕ) (xs ys : List Runnable) → all_owned k (xs +++ ys) ≡ (all_owned k xs && all_owned k ys)
unfolding all_owned
all_owned-append k [] ys = refl
all_owned-append k (x ∷ xs) ys = ground (arith, all_owned-append k xs ys)

pub all_owned-suc :
    (k : ℕ) (xs : List Runnable) → all_owned k xs ≡ true → all_owned (suc k) xs ≡ true
unfolding all_owned
all_owned-suc k [] h = refl
all_owned-suc k (x ∷ xs) h = ground (arith, all_owned-suc k xs, h)

-- No flag is set.
pub live-off :
    (active : ℕ → Bool) (xs : List Runnable) → ((m : ℕ) → active m ≡ false) → live active xs ≡ 0
unfolding live
live-off active [] off = refl
live-off active (x ∷ xs) off = ground (arith, live-off active xs off, off (owner x))

-- The flag of a monitor that owns nothing does not matter.
pub live-put :
    (active : ℕ → Bool) (k : ℕ) (v : Bool) (xs : List Runnable)
    → all_owned k xs ≡ true
    → live (put active k v) xs ≡ live active xs
unfolding live all_owned
live-put active k v [] h = refl
live-put active k v (x ∷ xs) h = ground (arith, live-put active k v xs, h)
