-- ===== src/Tests/Monitors.antt =====
-- The monitors of MotionContext and SoundContext, bound and unbound.
use sctx.Context.Motion
use sctx.Context.Motion.Release.{here, next, samples, Reached-released}
use sctx.Context.Sound
use sctx.Context.Sound.Cycles.{cycles, ends, is_held}
use sctx.Context.Sound.Running.{Reached-runs}
use sctx.Context.Stop.{Service, on_destroy, IsReleased, on_destroy-IsReleased}
use sctx.Context.Wifi.Timer
use sctx.Prelude.Options.{is_some}
use sctx.Prelude.{
  ℕ, ◌+◌, ◌≡◌, refl, true, false, not, length, ◌&&◌, ◌||◌, Option, none, some, [], ◌∷◌, ◌==◌,
}

-- A monitor of the motion is bound and unbound before its runnable ran.
abbrev motion_of : Option Motion.MotionContext → Motion.MotionContext
motion_of none = Motion.on_create
motion_of (some c) = c

abbrev unbound_motion : Motion.MotionContext
unbound_motion = motion_of (Motion.unbind (Motion.bind Motion.on_create))

bound_motion-Reached : Motion.Reached (Motion.bind Motion.on_create)
bound_motion-Reached = Motion.stepped Motion.created Motion.bound

-- The monitor's runnable waits when the service ends, and registers a listener that stays.
abbrev late : Motion.MotionContext
late =
    Motion.run false (Motion.sample 0) (record (Motion.on_destroy unbound_motion) { waiting = [] })

Reached-released_example :
    (1 + length late.waiting ≡ length (Motion.bind Motion.on_create).waiting)
    × (length late.registered + samples late.waiting
        ≡ samples (Motion.bind Motion.on_create).waiting)
unfolding Motion.unbind Motion.bind Motion.on_destroy
Reached-released_example =
    Reached-released (Motion.bind Motion.on_create) unbound_motion late 1 bound_motion-Reached refl
      (next [] (Motion.sample 0) [] here refl)

stays_registered : (late.registered ≡ 0 ∷ []) × (late.waiting ≡ [])
unfolding Motion.unbind Motion.bind Motion.run Motion.on_destroy
stays_registered = (refl, refl)

-- The new level is the amplitude.
abbrev mix : ℕ → ℕ → ℕ
mix old new = new

abbrev sound_of : Option Sound.SoundContext → Sound.SoundContext
sound_of none = Sound.new_sound
sound_of (some c) = c

abbrev bound_sound : Sound.SoundContext
bound_sound = Sound.bind true true Sound.new_sound

Reached-runs_example :
    (is_some (Sound.run mix 5 true (Sound.sample 0) (record bound_sound { waiting = [] })) ≡ true)
    × ((m : ℕ)
        → (not (true && is_held bound_sound.monitor m) || (cycles m bound_sound.waiting == 1))
          ≡ true)
    × ((l : ℕ)
        → (not (true && bound_sound.listening l)
            || (ends (bound_sound.outer l) bound_sound.waiting == 1))
          ≡ true)
unfolding Sound.bind
Reached-runs_example =
    Reached-runs mix true bound_sound 5 [] (Sound.sample 0) []
      (Sound.stepped Sound.created (Sound.bound true)) refl

-- Bound again between two measurements: the old monitor's runnable and the new one's both listen.
abbrev rebound : Sound.SoundContext
rebound = Sound.bind true true (sound_of (Sound.unbind true bound_sound))

abbrev both : Sound.SoundContext
both = sound_of (
    Sound.run mix 5 true (Sound.sample 1)
      (sound_of (Sound.run mix 5 true (Sound.sample 0) (record rebound { waiting = [] }))))

both_listen : (both.listening 0 ≡ true) × (both.listening 1 ≡ true)
unfolding Sound.bind Sound.unbind Sound.run
both_listen = (refl, refl)

-- A service that is bound once.
abbrev service : Service
service = record {
  handler = true;
  lua_open = true;
  timer = Timer.bind Timer.new_timer;
  motion = Motion.bind Motion.on_create;
  sound = bound_sound;
}

on_destroy-IsReleased_example : IsReleased (on_destroy true service)
unfolding Timer.bind Motion.bind Sound.bind
on_destroy-IsReleased_example =
    on_destroy-IsReleased mix true service refl (Timer.stepped Timer.created (Timer.bound refl))
      (Motion.stepped Motion.created Motion.bound) (Sound.stepped Sound.created (Sound.bound true))
      refl refl refl refl

-- A recorder that does not stop ends onDestroy by an exception, before the sensor is released.
not_stopped : on_destroy false service ≡ none
unfolding on_destroy Timer.bind Timer.unbind Motion.bind Motion.unbind Sound.bind Sound.unbind
not_stopped = refl
