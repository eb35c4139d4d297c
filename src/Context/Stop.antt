-- ===== src/Context/Stop.antt =====
-- onDestroy of SmartContext, over the timer, the monitors and the Lua state of the service.
use sctx.Context.Engine.{put}
use sctx.Context.Motion
use sctx.Context.Motion.Kept.{Reached-Sampling}
use sctx.Context.Motion.Sampling.{Sampling, is_monitor}
use sctx.Context.Sound
use sctx.Context.Sound.Cycles.{Cycling, is_held}
use sctx.Context.Sound.Running.{Reached-Cycling}
use sctx.Context.Wifi.Timer
use sctx.Context.Wifi.Timer.{ScanTimer, Timing, is_pusher, Reached-Timing}
use sctx.Prelude.Options.{◌>>=◌, is_some}
use sctx.Prelude.{
  ℕ, ◌≡◌, refl, Bool, true, false, not, ◌||◌, Option, none, some, [], if◌then◌else◌, Option-cases,
  inl, inr, arith,
}

-- `handler` says whether the service and its handler are registered in Singletons, `lua_open` whether
-- the Lua state is open.
pub record Service : Type 0 where
  pub handler : Bool
  pub lua_open : Bool
  pub timer : ScanTimer
  pub motion : Motion.MotionContext
  pub sound : Sound.SoundContext

-- onDestroy, none where it ends by an exception: where MediaRecorder.stop throws, which `stops` says
-- it does not, what comes after sound.unbind is not done.
unfoldable pub on_destroy : Bool → Service → Option Service
on_destroy stops s = if not s.handler then none else (do
  timer ← Timer.unbind s.timer
  motion ← Motion.unbind s.motion
  sound ← Sound.unbind stops s.sound
  some (record {
    handler = false;
    lua_open = false;
    timer = timer;
    motion = Motion.on_destroy motion;
    sound = sound;
  }))

-- Nothing of the service goes on: no receiver or sensor listener is registered, the recorder is off,
-- and no runnable that still waits is of an active pusher or monitor.
pub record Released (s : Service) : Type 0 where
  pub closed : s.lua_open ≡ false
  pub gone : s.handler ≡ false
  pub receiver : s.timer.registered ≡ false
  pub pushers : (p : ℕ) → s.timer.active p ≡ false
  pub listeners : s.motion.registered ≡ []
  pub motions : (m : ℕ) → s.motion.active m ≡ false
  pub recorder : s.sound.recorder ≡ false
  pub sounds : (m : ℕ) → s.sound.active m ≡ false

abbrev pub IsReleased : Option Service → Type 0
IsReleased none = ⊥
IsReleased (some s) = Released s

timer-released :
    (t : ScanTimer)
    → Timer.Reached t
    → is_some t.pusher ≡ true
    → (u : ScanTimer) × (Timer.unbind t ≡ some u)
      × (u.registered ≡ false)
      × ((p : ℕ) → u.active p ≡ false)
unfolding Timer.unbind is_pusher
timer-released t r bound = elim (Option-cases t.pusher) [
  | inl free ↦ absurd (ground (arith, free, bound))
  | inr (p, there) ↦
      let x : Timing t = Reached-Timing r in
      (
        record t { pusher = none; active = put t.active p false; registered = false },
        ground (arith, there, x.received),
        refl,
        λ q. ground (arith, x.current q, there),
      )
]

motion-released :
    (c : Motion.MotionContext)
    → Motion.Reached c
    → is_some c.monitor ≡ true
    → (d : Motion.MotionContext) × (Motion.unbind c ≡ some d)
      × ((Motion.on_destroy d).registered ≡ [])
      × ((m : ℕ) → (Motion.on_destroy d).active m ≡ false)
unfolding Motion.unbind Motion.on_destroy is_monitor
motion-released c r bound = elim (Option-cases c.monitor) [
  | inl free ↦ absurd (ground (arith, free, bound))
  | inr (m, there) ↦
      let d : Motion.MotionContext = record c { monitor = none; active = put c.active m false } in
      let e : Motion.unbind c ≡ some d = ground (arith, there) in
      let x : Sampling c = Reached-Sampling r in
      let y : Sampling (Motion.on_destroy d) =
        Reached-Sampling
          (Motion.stepped (Motion.stepped r (Motion.unbound d e)) Motion.destroyed) in
      (d, e, y.same, λ k. ground (arith, x.current k, there))
]

sound-released :
    (mix : ℕ → ℕ → ℕ) (stops : Bool) (c : Sound.SoundContext)
    → Sound.Reached mix true c
    → (not c.recorder || stops) ≡ true
    → is_some c.monitor ≡ true
    → (d : Sound.SoundContext) × (Sound.unbind stops c ≡ some d)
      × (d.recorder ≡ false)
      × ((m : ℕ) → d.active m ≡ false)
unfolding Sound.unbind Sound.stop_recording is_held
sound-released mix stops c r can bound = elim (Option-cases c.monitor) [
  | inl free ↦ absurd (ground (arith, free, bound))
  | inr (m, there) ↦
      let x : Cycling c = Reached-Cycling mix r in
      (
        record c { monitor = none; active = put c.active m false; recorder = false },
        ground (arith, there, can),
        refl,
        λ k. ground (arith, x.current k, there),
      )
]

-- On a service that is registered, whose timer and monitors are reached and bound, and whose recorder
-- is off or can be stopped: onDestroy ends without an exception; then the Lua state is closed, no receiver and no sensor listener is
-- registered, the recorder is off, and no pusher and no monitor is active.
pub on_destroy-IsReleased :
    (mix : ℕ → ℕ → ℕ) (stops : Bool) (s : Service)
    → s.handler ≡ true
    → Timer.Reached s.timer
    → Motion.Reached s.motion
    → Sound.Reached mix true s.sound
    → (not s.sound.recorder || stops) ≡ true
    → is_some s.timer.pusher ≡ true
    → is_some s.motion.monitor ≡ true
    → is_some s.sound.monitor ≡ true
    → IsReleased (on_destroy stops s)
unfolding on_destroy
on_destroy-IsReleased mix stops s here rt rm rs can bt bm bs =
    let (t, et, received, pushers) = timer-released s.timer rt bt in
    let (m, em, listeners, motions) = motion-released s.motion rm bm in
    let (o, eo, recorder, sounds) = sound-released mix stops s.sound rs can bs in
    rw (on_destroy, here, et, em, eo)
      (record {
        closed = refl;
        gone = refl;
        receiver = received;
        pushers = pushers;
        listeners = listeners;
        motions = motions;
        recorder = recorder;
        sounds = sounds;
      })
