-- ===== src/Context/Sound/Kept.antt =====
-- What each call and each runnable of SoundContext keeps.
use mathlib.Core.List.{◌++◌ as ◌+++◌}
use sctx.Context.Engine.{put}
use sctx.Context.Sound.{Runnable, sample, stop, listen, SoundContext, start_recording, bound_to}
use sctx.Prelude.Options.{is_some}
use sctx.Prelude.{
  ℕ, suc, ◌+◌, ◌≡◌, Bool, true, false, none, some, List, [], ◌∷◌, ap, if◌then◌else◌, arith,
}
use sctx.Context.Sound.Ending.{unbound_of}
use sctx.Context.Sound.Cycles.{
  cycles, ends, is_held, Cycling, cycles-append, ends-append, ends-le-cycles,
}

Cycling-if : (b : Bool) (c d : SoundContext) → Cycling c → Cycling d → Cycling (if b then c else d)
Cycling-if true c d x y = x
Cycling-if false c d x y = y

-- The recorder plays no part.
Cycling-recorder : (on : Bool) (c : SoundContext) → Cycling c → Cycling (record c { recorder = on })
Cycling-recorder on c x = record {
  one = x.one;
  none_new = x.none_new;
  ended = x.ended;
  held = x.held;
  current = x.current;
  awake = x.awake;
  going = x.going;
}

pub Cycling-recording :
    (started : Bool) (c : SoundContext) → Cycling c → Cycling (start_recording started c)
unfolding start_recording
Cycling-recording started c x =
    Cycling-if c.recorder c (record c { recorder = started }) x (Cycling-recorder started c x)

module _ (c : SoundContext) (x : Cycling c) where
  pub Cycling-bound_to : c.monitor ≡ none → Cycling (bound_to true c.next_monitor c)
  unfolding cycles ends is_held
  Cycling-bound_to h =
      let k : ℕ = c.next_monitor in
      let free : cycles k c.waiting ≡ 0 = x.none_new k (omega arith) in
      let unheard : is_some (c.listener k) ≡ false =
        ground (arith, free, x.ended k, ends-le-cycles k c.waiting) in
      record {
        one = λ m. ground (arith, x.one m, free, cycles-append m c.waiting (sample k ∷ []));
        none_new =
            λ m l. ground (arith, x.none_new m, l, cycles-append m c.waiting (sample k ∷ []));
        ended = λ m. ground (
          arith,
          x.ended m,
          free,
          ends-le-cycles k c.waiting,
          ends-append m c.waiting (sample k ∷ []),
        );
        held = λ l. ground (arith, x.held l, unheard);
        current = λ m. ground (arith, x.current m, h);
        awake = λ m. ground arith;
        going = λ m. ground (arith, free, cycles-append m c.waiting (sample k ∷ []));
      }

  pub Cycling-unbound_of : (m : ℕ) → c.monitor ≡ some m → Cycling (unbound_of c m)
  unfolding is_held
  Cycling-unbound_of m h = record {
    one = x.one;
    none_new = x.none_new;
    ended = x.ended;
    held = x.held;
    current = λ k. ground (arith, x.current k, h);
    awake = λ k. ground arith;
    going = λ k. ground arith;
  }

  module _ (xs ys : List Runnable) where
    abbrev pub left : List Runnable
    left = xs +++ ys

    pub Cycling-sample :
        (m : ℕ)
        → c.waiting ≡ xs +++ (sample m ∷ ys)
        → Cycling (record c {
          listener = put c.listener m (some c.next_listener);
          listening = put c.listening c.next_listener true;
          outer = put c.outer c.next_listener m;
          next_listener = suc c.next_listener;
          waiting = left +++ (listen c.next_listener ∷ stop m ∷ []);
        })
    unfolding cycles ends is_held
    Cycling-sample m e =
        let new : List Runnable = listen c.next_listener ∷ stop m ∷ [] in
        let split : (k : ℕ) → cycles k c.waiting ≡ cycles k left + cycles k (sample m ∷ []) = λ k.
          ground
            (arith, ap (cycles k) e, cycles-append k xs (sample m ∷ ys), cycles-append k xs ys) in
        let ends_split : (k : ℕ) → ends k c.waiting ≡ ends k left = λ k.
          ground (arith, ap (ends k) e, ends-append k xs (sample m ∷ ys), ends-append k xs ys) in
        let quiet : is_some (c.listener m) ≡ false =
          ground (arith, x.one m, split m, x.ended m, ends_split m, ends-le-cycles m left) in
        record {
          one = λ k. ground (arith, x.one k, split k, cycles-append k left new);
          none_new = λ k l. ground (arith, x.none_new k l, split k, cycles-append k left new);
          ended = λ k. ground (arith, x.ended k, quiet, ends_split k, ends-append k left new);
          held = λ l. ground (arith, x.held l, quiet);
          current = x.current;
          awake = x.awake;
          going = λ k. ground (arith, x.going k, split k, cycles-append k left new);
        }

    pub Cycling-stop :
        (m l : ℕ)
        → c.waiting ≡ xs +++ (stop m ∷ ys)
        → c.listener m ≡ some l
        → Cycling (record c {
          listening = put c.listening l false;
          listener = put c.listener m none;
          waiting = if c.active m then left +++ (sample m ∷ []) else left;
        })
    unfolding cycles ends is_held
    Cycling-stop m l e there =
        let split : (k : ℕ) → cycles k c.waiting ≡ cycles k left + cycles k (sample m ∷ []) = λ k.
          ground
            (arith, ap (cycles k) e, cycles-append k xs (stop m ∷ ys), cycles-append k xs ys) in
        let ends_split : (k : ℕ) → ends k c.waiting ≡ ends k left + cycles k (sample m ∷ []) =
          λ k. ground (arith, ap (ends k) e, ends-append k xs (stop m ∷ ys), ends-append k xs ys) in
        record {
          one = λ k. ground (arith, x.one k, split k, cycles-append k left (sample m ∷ []));
          none_new =
              λ k h. ground (arith, x.none_new k h, split k, cycles-append k left (sample m ∷ []));
          ended = λ k.
              ground (arith, x.ended k, there, ends_split k, ends-append k left (sample m ∷ []));
          held = λ j. ground (arith, x.held j, there);
          current = x.current;
          awake = x.awake;
          going = λ k.
              ground (arith, x.going k, x.awake k, split k, cycles-append k left (sample m ∷ []));
        }

    pub Cycling-listen :
        (level l : ℕ) (again : Bool)
        → c.waiting ≡ xs +++ (listen l ∷ ys)
        → Cycling (record c {
          background_amp_level = level;
          waiting = if again then left +++ (listen l ∷ []) else left;
        })
    unfolding cycles ends
    Cycling-listen level l again e =
        let same : (k : ℕ) → cycles k c.waiting ≡ cycles k left = λ k.
          ground
            (arith, ap (cycles k) e, cycles-append k xs (listen l ∷ ys), cycles-append k xs ys) in
        let ends_same : (k : ℕ) → ends k c.waiting ≡ ends k left = λ k.
          ground (arith, ap (ends k) e, ends-append k xs (listen l ∷ ys), ends-append k xs ys) in
        record {
          one = λ k. ground (arith, x.one k, same k, cycles-append k left (listen l ∷ []));
          none_new =
              λ k h. ground (arith, x.none_new k h, same k, cycles-append k left (listen l ∷ []));
          ended = λ k. ground (arith, x.ended k, ends_same k, ends-append k left (listen l ∷ []));
          held = x.held;
          current = x.current;
          awake = x.awake;
          going = λ k. ground (arith, x.going k, same k, cycles-append k left (listen l ∷ []));
        }
