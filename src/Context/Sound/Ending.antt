-- ===== src/Context/Sound/Ending.antt =====
-- SoundContext when the service's handler may be gone: a runnable that ends a listening still finds
-- its listener, and there is no second one.
use mathlib.Core.List.{◌++◌ as ◌+++◌}
use sctx.Context.Engine.{put}
use sctx.Context.Sound.{
  Runnable, sample, stop, listen, SoundContext, start_recording, stop_recording, add_monitor, bind,
  unbind, run, Step, recording, bound, unbound, ran,
}
use sctx.Context.Sound.Cycles.{cycles, ends, Cycling, cycles-append, ends-append, ends-le-cycles}
use sctx.Prelude.Options.{is_some}
use sctx.Prelude.{
  ℕ, suc, ◌+◌, ◌≤◌, ◌≡◌, refl, Bool, true, false, not, ◌&&◌, none, some, List, [], ◌∷◌,
  if◌then◌else◌, ap, subst, Bool-cases, Option-cases, inl, inr, arith,
}

pub record Ending (c : SoundContext) : Type 0 where
  pub one : (m : ℕ) → cycles m c.waiting ≤ 1
  pub none_new : (m : ℕ) → c.next_monitor ≤ m → cycles m c.waiting ≡ 0
  pub ended : (m : ℕ) → ends m c.waiting ≤ (if is_some (c.listener m) then 1 else 0)

pub Cycling-Ending : (c : SoundContext) → Cycling c → Ending c
Cycling-Ending c x = record {
  one = x.one;
  none_new = x.none_new;
  ended = λ m. ground (arith, x.ended m);
}

-- What unbind makes where it ends.
abbrev pub unbound_of : SoundContext → ℕ → SoundContext
unbound_of c m = record c { monitor = none; recorder = false; active = put c.active m false }

pub unbind_there :
    (stops : Bool) (c d : SoundContext)
    → unbind stops c ≡ some d
    → (m : ℕ) × (c.monitor ≡ some m) × (unbound_of c m ≡ d)
unfolding unbind stop_recording
unbind_there stops c d e = elim (Option-cases c.monitor) [
  | inl free ↦ absurd (ground (arith, e, free))
  | inr (m, there) ↦ elim (Bool-cases (c.recorder && not stops)) [
    | inl fails ↦ absurd (ground (arith, e, there, fails))
    | inr fine ↦ (m, there, ground (arith, e, there, fine))
  ]
]

module _ (c : SoundContext) (x : Ending c) where
  Ending-recording : (started : Bool) → Ending (start_recording started c)
  unfolding start_recording
  Ending-recording started = elim (Bool-cases c.recorder) [
    | inl on ↦ record {
      one = λ m. ground (arith, on, x.one m);
      none_new = λ m h. ground (arith, on, x.none_new m, h);
      ended = λ m. ground (arith, on, x.ended m);
    }
    | inr off ↦ record {
      one = λ m. ground (arith, off, x.one m);
      none_new = λ m h. ground (arith, off, x.none_new m, h);
      ended = λ m. ground (arith, off, x.ended m);
    }
  ]

  Ending-add_monitor : Ending (add_monitor false c)
  unfolding add_monitor
  Ending-add_monitor = elim (Option-cases c.monitor) [
    | inl free ↦ record {
      one = λ m. ground (arith, free, x.one m);
      none_new = λ m h. ground (arith, free, x.none_new m, h);
      ended = λ m. ground (
        arith,
        free,
        x.ended m,
        x.none_new c.next_monitor,
        ends-le-cycles c.next_monitor c.waiting,
      );
    }
    | inr (k, there) ↦ record {
      one = λ m. ground (arith, there, x.one m);
      none_new = λ m h. ground (arith, there, x.none_new m, h);
      ended = λ m. ground (arith, there, x.ended m);
    }
  ]

  Ending-unbound_of : (m : ℕ) → Ending (unbound_of c m)
  Ending-unbound_of m = record { one = x.one; none_new = x.none_new; ended = x.ended }

  -- The listener is there when the runnable that ends the listening waits.
  pub listener_there :
      (xs ys : List Runnable) (m : ℕ)
      → c.waiting ≡ xs +++ (stop m ∷ ys)
      → is_some (c.listener m) ≡ true
  unfolding ends
  listener_there xs ys m e =
      ground (arith, x.ended m, ap (ends m) e, ends-append m xs (stop m ∷ ys))

  module _ (mix : ℕ → ℕ → ℕ) (amplitude : ℕ) (xs ys : List Runnable) where
    abbrev left : List Runnable
    left = xs +++ ys

    -- Each runnable that waits runs, whether or not the handler is there.
    pub run_some :
        (handler : Bool) (r : Runnable)
        → c.waiting ≡ xs +++ (r ∷ ys)
        → is_some (run mix amplitude handler r (record c { waiting = left })) ≡ true
    unfolding run
    run_some handler (sample m) e = refl
    run_some handler (stop m) e = ground (arith, listener_there xs ys m e)
    run_some handler (listen l) e = ground arith

    split :
        (r : Runnable) (k : ℕ)
        → c.waiting ≡ xs +++ (r ∷ ys)
        → cycles k c.waiting ≡ cycles k left + cycles k (r ∷ [])
    unfolding cycles
    split (sample m) k e =
        ground (arith, ap (cycles k) e, cycles-append k xs (sample m ∷ ys), cycles-append k xs ys)
    split (stop m) k e =
        ground (arith, ap (cycles k) e, cycles-append k xs (stop m ∷ ys), cycles-append k xs ys)
    split (listen l) k e =
        ground (arith, ap (cycles k) e, cycles-append k xs (listen l ∷ ys), cycles-append k xs ys)

    ends_split :
        (r : Runnable) (k : ℕ)
        → c.waiting ≡ xs +++ (r ∷ ys)
        → ends k c.waiting ≡ ends k left + ends k (r ∷ [])
    unfolding ends
    ends_split (sample m) k e =
        ground (arith, ap (ends k) e, ends-append k xs (sample m ∷ ys), ends-append k xs ys)
    ends_split (stop m) k e =
        ground (arith, ap (ends k) e, ends-append k xs (stop m ∷ ys), ends-append k xs ys)
    ends_split (listen l) k e =
        ground (arith, ap (ends k) e, ends-append k xs (listen l ∷ ys), ends-append k xs ys)

    -- Without a handler a runnable posts nothing.
    Ending-run :
        (r : Runnable) (d : SoundContext)
        → c.waiting ≡ xs +++ (r ∷ ys)
        → run mix amplitude false r (record c { waiting = left }) ≡ some d
        → Ending d
    unfolding run cycles ends
    Ending-run (sample m) d e h =
        let after : SoundContext = record c {
          listener = put c.listener m (some c.next_listener);
          listening = put c.listening c.next_listener true;
          outer = put c.outer c.next_listener m;
          next_listener = suc c.next_listener;
          waiting = left;
        } in
        let same : after ≡ d = ground (arith, h) in
        subst Ending same (record {
          one = λ k. ground (arith, x.one k, split (sample m) k e);
          none_new = λ k l. ground (arith, x.none_new k l, split (sample m) k e);
          ended = λ k. ground (arith, x.ended k, ends_split (sample m) k e);
        })
    Ending-run (stop m) d e h = elim (Option-cases (c.listener m)) [
      | inl gone ↦ absurd (ground (arith, gone, listener_there xs ys m e))
      | inr (l, there) ↦
          let after : SoundContext = record c {
            listening = put c.listening l false;
            listener = put c.listener m none;
            waiting = left;
          } in
          let same : after ≡ d = ground (arith, h, there) in
          subst Ending same (record {
            one = λ k. ground (arith, x.one k, split (stop m) k e);
            none_new = λ k l'. ground (arith, x.none_new k l', split (stop m) k e);
            ended = λ k. ground (arith, x.ended k, ends_split (stop m) k e);
          })
    ]
    Ending-run (listen l) d e h =
        let heard : ℕ → SoundContext =
          λ level. record c { background_amp_level = level; waiting = left } in
        let keeps : (level : ℕ) → Ending (heard level) = λ level. record {
          one = λ k. ground (arith, x.one k, split (listen l) k e);
          none_new = λ k l'. ground (arith, x.none_new k l', split (listen l) k e);
          ended = λ k. ground (arith, x.ended k, ends_split (listen l) k e);
        } in
        elim (Bool-cases (c.listening l)) [
          | inl on ↦
              let level : ℕ = mix c.background_amp_level (if c.recorder then amplitude else 0) in
              let same : heard level ≡ d = ground (arith, h, on) in subst Ending same (keeps level)
          | inr off ↦
              let same : heard c.background_amp_level ≡ d = ground (arith, h, off) in
              subst Ending same (keeps c.background_amp_level)
        ]

pub Ending-Step : (mix : ℕ → ℕ → ℕ) {c d : SoundContext} → Step mix false c d → Ending c → Ending d
unfolding bind
Ending-Step mix {c} (recording started) x = Ending-recording c x started
Ending-Step mix {c} (bound started) x =
    Ending-add_monitor (start_recording started c) (Ending-recording c x started)
Ending-Step mix {c} (unbound stops d e) x =
    let (m, there, same) = unbind_there stops c d e in subst Ending same (Ending-unbound_of c x m)
Ending-Step mix {c} (ran amplitude xs r ys d e h) x = Ending-run c x mix amplitude xs ys r d e h
