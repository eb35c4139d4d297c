-- ===== src/Context/Sound/Running.antt =====
-- The runnables of SoundContext never fail.
use mathlib.Core.List.{◌++◌ as ◌+++◌}
use sctx.Context.Sound.{
  Runnable, sample, stop, listen, SoundContext, new_sound, start_recording, bound_to, add_monitor,
  bind, unbind, run, Step, recording, bound, unbound, ran, Reached, created, stepped, cleared,
}
use sctx.Context.Sound.Ending.{
  Ending, Cycling-Ending, unbind_there, listener_there, run_some, Ending-Step,
}
use sctx.Prelude.Options.{is_some}
use sctx.Prelude.{
  ℕ, ◌≡◌, refl, Bool, true, false, not, ◌&&◌, ◌||◌, none, some, List, ◌∷◌, ◌==◌, sym, subst,
  if◌then◌else◌, Bool-cases, Option-cases, inl, inr, arith,
}
use sctx.Context.Sound.Cycles.{cycles, ends, is_held, Cycling}
use sctx.Context.Sound.Kept.{
  Cycling-recording, Cycling-bound_to, Cycling-unbound_of, Cycling-sample, Cycling-stop,
  Cycling-listen,
}

add_there : (c : SoundContext) (m : ℕ) → c.monitor ≡ some m → add_monitor true c ≡ c
unfolding add_monitor
add_there c m h = ground (arith, h)

add_free :
    (c : SoundContext) → c.monitor ≡ none → add_monitor true c ≡ bound_to true c.next_monitor c
unfolding add_monitor
add_free c h = rw (add_monitor, h) refl

Cycling-add_monitor : (c : SoundContext) → Cycling c → Cycling (add_monitor true c)
Cycling-add_monitor c x = elim (Option-cases c.monitor) [
  | inl free ↦ subst Cycling (sym (add_free c free)) (Cycling-bound_to c x free)
  | inr (m, there) ↦ subst Cycling (sym (add_there c m there)) x
]

Cycling-unbound :
    (stops : Bool) (c d : SoundContext) → Cycling c → unbind stops c ≡ some d → Cycling d
Cycling-unbound stops c d x e =
    let (m, there, same) = unbind_there stops c d e in
    subst Cycling same (Cycling-unbound_of c x m there)

module _ (mix : ℕ → ℕ → ℕ) (amplitude : ℕ) where
  Cycling-run :
      (c d : SoundContext) (xs : List Runnable) (r : Runnable) (ys : List Runnable)
      → Cycling c
      → c.waiting ≡ xs +++ (r ∷ ys)
      → run mix amplitude true r (record c { waiting = xs +++ ys }) ≡ some d
      → Cycling d
  unfolding run
  Cycling-run c d xs (sample m) ys x e h =
      subst Cycling (ground (arith, h)) (Cycling-sample c x xs ys m e)
  Cycling-run c d xs (stop m) ys x e h = elim (Option-cases (c.listener m)) [
    | inl gone ↦ absurd (ground (arith, gone, listener_there c (Cycling-Ending c x) xs ys m e))
    | inr (l, there) ↦ subst Cycling (ground (arith, h, there)) (Cycling-stop c x xs ys m l e there)
  ]
  Cycling-run c d xs (listen l) ys x e h =
      let level : ℕ = mix c.background_amp_level (if c.recorder then amplitude else 0) in
      elim (Bool-cases (c.listening l)) [
        | inl on ↦ subst Cycling (ground (arith, h, on)) (Cycling-listen c x xs ys level l true e)
        | inr off ↦
            subst Cycling (ground (arith, h, off))
              (Cycling-listen c x xs ys c.background_amp_level l false e)
      ]

created-Cycling : Cycling new_sound
unfolding cycles ends is_held
created-Cycling = record {
  one = λ m. omega arith;
  none_new = λ m h. refl;
  ended = λ m. refl;
  held = λ l. refl;
  current = λ m. refl;
  awake = λ m. refl;
  going = λ m. refl;
}

module _ (mix : ℕ → ℕ → ℕ) where
  Cycling-Step : {c d : SoundContext} → Step mix true c d → Cycling c → Cycling d
  unfolding bind
  Cycling-Step {c} (recording started) x = Cycling-recording started c x
  Cycling-Step {c} (bound started) x =
      Cycling-add_monitor (start_recording started c) (Cycling-recording started c x)
  Cycling-Step {c} (unbound stops d e) x = Cycling-unbound stops c d x e
  Cycling-Step {c} (ran amplitude xs r ys d e h) x = Cycling-run mix amplitude c d xs r ys x e h

  -- Cycling while the handler is there, and Ending in any case.
  Held : Bool → SoundContext → Type 0
  Held true c = Cycling c
  Held false c = Ending c

  Reached-Held : {handler : Bool} {c : SoundContext} → Reached mix handler c → Held handler c
  unfolding Held
  Reached-Held created = created-Cycling
  Reached-Held (stepped {handler = true} r step) = Cycling-Step step (Reached-Held r)
  Reached-Held (stepped {handler = false} r step) = Ending-Step mix step (Reached-Held r)
  Reached-Held (cleared {c} r) = Cycling-Ending c (Reached-Held r)

  pub Reached-Cycling : {c : SoundContext} → Reached mix true c → Cycling c
  unfolding Held
  Reached-Cycling r = Reached-Held r

  pub Reached-Ending : (handler : Bool) (c : SoundContext) → Reached mix handler c → Ending c
  unfolding Held
  Reached-Ending true c r = Cycling-Ending c (Reached-Held r)
  Reached-Ending false c r = Reached-Held r

  cycles_held :
      (handler : Bool) (c : SoundContext)
      → Reached mix handler c
      → ((m : ℕ) → (not (handler && is_held c.monitor m) || (cycles m c.waiting == 1)) ≡ true)
        × ((l : ℕ) → (not (handler && c.listening l) || (ends (c.outer l) c.waiting == 1)) ≡ true)
  unfolding is_held
  cycles_held false c r = (λ m. refl, λ l. refl)
  cycles_held true c r =
      let x : Cycling c = Reached-Cycling r in
      (x.going, λ l. ground (arith, x.held l, x.ended (c.outer l)))

  -- In every state that calls and runnables in any order lead to, also after the service's handler is
  -- gone: each runnable that waits runs without an exception. While the handler is there, one
  -- runnable besides its listeners waits for the monitor that is bound, and for each listener that is
  -- active one that ends it.
  pub Reached-runs :
      (handler : Bool) (c : SoundContext) (amplitude : ℕ) (xs : List Runnable) (r : Runnable)
      (ys : List Runnable)
      → Reached mix handler c
      → c.waiting ≡ xs +++ (r ∷ ys)
      → (is_some (run mix amplitude handler r (record c { waiting = xs +++ ys })) ≡ true)
        × ((m : ℕ) → (not (handler && is_held c.monitor m) || (cycles m c.waiting == 1)) ≡ true)
        × ((l : ℕ) → (not (handler && c.listening l) || (ends (c.outer l) c.waiting == 1)) ≡ true)
  Reached-runs handler c amplitude xs r ys reached e =
      let (going, heard) = cycles_held handler c reached in
      (run_some c (Reached-Ending handler c reached) mix amplitude xs ys handler r e, going, heard)
