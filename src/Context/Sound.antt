-- ===== src/Context/Sound.antt =====
-- SoundContext of src/org/sctx: the monitor that measures the background noise for a while, at
-- intervals, with a listener that reads the recorder again and again while it is active.
pub mod Cycles
pub mod Kept
pub mod Ending
pub mod Running
use mathlib.Core.List.{◌++◌ as ◌+++◌}
use sctx.Context.Engine.{put}
use sctx.Prelude.{
  ℕ, suc, ◌≡◌, Bool, true, false, not, ◌&&◌, Option, none, some, List, [], ◌∷◌, if◌then◌else◌,
}

-- What the thread of the service is to run: a SoundMonitorRunnable, the runnable that ends its
-- listening, or a SoundListener.
pub data Runnable : Type 0 where
  sample : ℕ → Runnable
  stop : ℕ → Runnable
  listen : ℕ → Runnable

-- Monitors and listeners are numbers. `active` and `listener` are fields of the monitors, `listening`
-- is the flag `active` of the listeners and `outer` the monitor that made each. The level is a
-- double, by its number.
pub record SoundContext : Type 0 where
  pub monitor : Option ℕ
  pub recorder : Bool
  pub background_amp_level : ℕ
  pub active : ℕ → Bool
  pub listener : ℕ → Option ℕ
  pub next_monitor : ℕ
  pub listening : ℕ → Bool
  pub outer : ℕ → ℕ
  pub next_listener : ℕ
  pub waiting : List Runnable

-- The constructor.
abbrev pub new_sound : SoundContext
new_sound = record {
  monitor = none;
  recorder = false;
  background_amp_level = 0;
  active = λ m. false;
  listener = λ m. none;
  next_monitor = 0;
  listening = λ l. false;
  outer = λ l. 0;
  next_listener = 0;
  waiting = [];
}

-- `started` says whether a new recorder can be set up and started.
unfoldable pub start_recording : Bool → SoundContext → SoundContext
start_recording started c = if c.recorder then c else record c { recorder = started }

-- `stops` says whether MediaRecorder.stop, which may throw, does not; none for the exception.
unfoldable pub stop_recording : Bool → SoundContext → Option SoundContext
stop_recording stops c =
    if c.recorder && not stops then none else some (record c { recorder = false })

-- Util.runInSCThread and runInSCThreadDelayed, which do nothing where the service's handler is not
-- registered.
abbrev pub posted : Bool → List Runnable → List Runnable → List Runnable
posted true rs new = rs +++ new
posted false rs new = rs

abbrev pub bound_to : Bool → ℕ → SoundContext → SoundContext
bound_to handler m c = record c {
  monitor = some m;
  active = put c.active m true;
  listener = put c.listener m none;
  next_monitor = suc m;
  waiting = posted handler c.waiting (sample m ∷ []);
}

-- `handler` says whether the service's handler is registered.
unfoldable pub add_monitor : Bool → SoundContext → SoundContext
add_monitor handler c = elim c.monitor [ some m ↦ c | none ↦ bound_to handler c.next_monitor c ]

unfoldable pub bind : Bool → Bool → SoundContext → SoundContext
unfolding start_recording add_monitor
bind handler started c = add_monitor handler (start_recording started c)

-- unbind, with none for the exception where there is no monitor or the recorder does not stop.
unfoldable pub unbind : Bool → SoundContext → Option SoundContext
unfolding stop_recording
unbind stops c = elim c.monitor [
  | none ↦ none
  | some m ↦ stop_recording stops (record c { monitor = none; active = put c.active m false })
]

-- `mix` is the new level, of the old one and an amplitude, and `amplitude` what the recorder says.
module _ (mix : ℕ → ℕ → ℕ) (amplitude : ℕ) where
  -- A runnable that is taken out of those that wait, with none where it fails on null.
  unfoldable pub run : Bool → Runnable → SoundContext → Option SoundContext
  run handler (sample m) c = some (record c {
    listener = put c.listener m (some c.next_listener);
    listening = put c.listening c.next_listener true;
    outer = put c.outer c.next_listener m;
    next_listener = suc c.next_listener;
    waiting = posted handler c.waiting (listen c.next_listener ∷ stop m ∷ []);
  })
  run handler (stop m) c = elim (c.listener m) [
    | none ↦ none
    | some l ↦ some (record c {
      listening = put c.listening l false;
      listener = put c.listener m none;
      waiting = if c.active m then posted handler c.waiting (sample m ∷ []) else c.waiting;
    })
  ]
  run handler (listen l) c =
      if c.listening l
      then some (record c {
        background_amp_level = mix c.background_amp_level (if c.recorder then amplitude else 0);
        waiting = posted handler c.waiting (listen l ∷ []);
      })
      else some c

module _ (mix : ℕ → ℕ → ℕ) where
  -- A call of a method, or one of the runnables, in any order, with the service's handler registered
  -- or not.
  pub data Step (handler : Bool) (c : SoundContext) : SoundContext → Type 0 where
    recording : (started : Bool) → Step handler c (start_recording started c)
    bound : (started : Bool) → Step handler c (bind handler started c)
    unbound : (stops : Bool) (d : SoundContext) → unbind stops c ≡ some d → Step handler c d
    ran :
        (amplitude : ℕ) (xs : List Runnable) (r : Runnable) (ys : List Runnable) (d : SoundContext)
        → c.waiting ≡ xs +++ (r ∷ ys)
        → run mix amplitude handler r (record c { waiting = xs +++ ys }) ≡ some d
        → Step handler c d

  -- The service's handler is registered until onDestroy of the service, whose first calls clear it.
  pub data Reached : Bool → SoundContext → Type 0 where
    created : Reached true new_sound
    stepped :
        {handler : Bool} {c d : SoundContext}
        → Reached handler c
        → Step handler c d
        → Reached handler d
    cleared : {c : SoundContext} → Reached true c → Reached false c
