-- ===== src/Context/Motion.antt =====
-- MotionContext of src/org/sctx: the monitor that listens to the acceleration sensor for a while, at
-- intervals. What it measures is only logged, and left out.
pub mod Sampling
pub mod Kept
pub mod Release
use mathlib.Core.List.{◌++◌ as ◌+++◌}
use sctx.Context.Engine.{includes, put}
use sctx.Context.Wifi.{without}
use sctx.Prelude.{ℕ, suc, ◌≡◌, Bool, true, false, Option, none, some, List, [], ◌∷◌, if◌then◌else◌}

-- What the thread of the service is to run: an AccMonitorRunnable, or the runnable that ends its
-- listening, with the number of the ListenerNode.
pub data Runnable : Type 0 where
  sample : ℕ → Runnable
  stop : ℕ → ℕ → Runnable

-- Monitors and nodes are numbers; `active` has the flags of the monitors, `registered` the nodes whose
-- listener is registered at the sensor manager. `waiting` are the runnables that were posted, at once
-- or with a delay.
pub record MotionContext : Type 0 where
  pub monitor : Option ℕ
  pub active : ℕ → Bool
  pub next_monitor : ℕ
  pub listening : List ℕ
  pub registered : List ℕ
  pub next_node : ℕ
  pub waiting : List Runnable

-- onCreate
abbrev pub on_create : MotionContext
on_create = record {
  monitor = none;
  active = λ m. false;
  next_monitor = 0;
  listening = [];
  registered = [];
  next_node = 0;
  waiting = [];
}

unfoldable pub bind : MotionContext → MotionContext
bind c = elim c.monitor [
  | some m ↦ c
  | none ↦ record c {
    monitor = some c.next_monitor;
    active = put c.active c.next_monitor true;
    next_monitor = suc c.next_monitor;
    waiting = c.waiting +++ (sample c.next_monitor ∷ []);
  }
]

-- unbind, with none for the exception where there is no monitor.
unfoldable pub unbind : MotionContext → Option MotionContext
unbind c = elim c.monitor [
  | none ↦ none
  | some m ↦ some (record c { monitor = none; active = put c.active m false })
]

-- Util.runInSCThreadDelayed, which does nothing where the service's handler is not registered.
abbrev pub posted : Bool → List Runnable → Runnable → List Runnable
posted true rs r = rs +++ (r ∷ [])
posted false rs r = rs

-- A runnable that is taken out of those that wait. `handler` says whether the service's handler is
-- registered.
unfoldable pub run : Bool → Runnable → MotionContext → MotionContext
unfolding includes without
run handler (sample m) c = record c {
  registered = c.next_node ∷ c.registered;
  listening = c.next_node ∷ c.listening;
  next_node = suc c.next_node;
  waiting = posted handler c.waiting (stop m c.next_node);
}
run handler (stop m n) c = record c {
  listening = without c.listening n;
  registered = if includes c.listening n then without c.registered n else c.registered;
  waiting = if c.active m then posted handler c.waiting (sample m) else c.waiting;
}

unfoldable pub unregister_all : List ℕ → List ℕ → List ℕ
unfolding without
unregister_all [] registered = registered
unregister_all (n ∷ ns) registered = unregister_all ns (without registered n)

unfoldable pub on_destroy : MotionContext → MotionContext
unfolding unregister_all
on_destroy c = record c { registered = unregister_all c.listening c.registered; listening = [] }

-- A call of a method, or one of the runnables, in any order, while the service is there.
pub data Step (c : MotionContext) : MotionContext → Type 0 where
  bound : Step c (bind c)
  unbound : (d : MotionContext) → unbind c ≡ some d → Step c d
  ran :
      (xs : List Runnable) (r : Runnable) (ys : List Runnable)
      → c.waiting ≡ xs +++ (r ∷ ys)
      → Step c (run true r (record c { waiting = xs +++ ys }))
  destroyed : Step c (on_destroy c)

pub data Reached : MotionContext → Type 0 where
  created : Reached on_create
  stepped : {c d : MotionContext} → Reached c → Step c d → Reached d
