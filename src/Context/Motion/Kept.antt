-- ===== src/Context/Motion/Kept.antt =====
-- The monitors of MotionContext: no listener stays registered without a runnable that ends it, and
-- only the monitor that is bound goes on.
use mathlib.Core.List.{◌++◌ as ◌+++◌}
use sctx.Context.Engine.{includes, put}
use sctx.Context.Motion.{
  Runnable, sample, stop, MotionContext, on_create, bind, unbind, run, unregister_all, on_destroy,
  Step, bound, unbound, ran, destroyed, Reached, created, stepped,
}
use sctx.Context.Wifi.{without}
use sctx.Context.Wifi.Index.{includes-without, without-absent}
use sctx.Prelude.{
  ℕ, suc, ◌≡◌, ◌≢◌, refl, true, false, not, ◌&&◌, none, some, List, [], ◌∷◌, ap, sym, subst,
  Option-cases, inl, inr, arith,
}
use sctx.Context.Motion.Sampling.{
  owner, live, stops, all_owned, is_monitor, Sampling, live-append, stops-append, all_owned-append,
  all_owned-suc, live-off, live-put,
}

includes-unregister_all :
    (ns rs : List ℕ) (n : ℕ)
    → includes (unregister_all ns rs) n ≡ (includes rs n && not (includes ns n))
unfolding unregister_all includes
includes-unregister_all [] rs n = ground arith
includes-unregister_all (k ∷ ns) rs n =
    ground (arith, includes-unregister_all ns (without rs k) n, includes-without rs k n)

nothing_in : (rs : List ℕ) → ((n : ℕ) → includes rs n ≡ false) → rs ≡ []
unfolding includes
nothing_in [] h = refl
nothing_in (r ∷ rs) h = absurd (ground (arith, h r))

bind_there : (c : MotionContext) (m : ℕ) → c.monitor ≡ some m → bind c ≡ c
unfolding bind
bind_there c m h = ground (arith, h)

bind-none :
    (c : MotionContext)
    → c.monitor ≡ none
    → bind c ≡ record c {
      monitor = some c.next_monitor;
      active = put c.active c.next_monitor true;
      next_monitor = suc c.next_monitor;
      waiting = c.waiting +++ (sample c.next_monitor ∷ []);
    }
unfolding bind
bind-none c h = rw (bind, h) refl

abbrev unbound_of : MotionContext → ℕ → MotionContext
unbound_of c m = record c { monitor = none; active = put c.active m false }

unbind_there :
    (c d : MotionContext) (m : ℕ) → c.monitor ≡ some m → unbind c ≡ some d → unbound_of c m ≡ d
unfolding unbind
unbind_there c d m h e = ground (arith, h, e)

unbind-none : (c d : MotionContext) → c.monitor ≡ none → unbind c ≢ some d
unfolding unbind
unbind-none c d h e = ground (arith, h, e)

module _ (c : MotionContext) (x : Sampling c) where
  Sampling-bound : Sampling (bind c)
  unfolding bind live stops all_owned is_monitor owner
  Sampling-bound = elim (Option-cases c.monitor) [
    | inr (m, there) ↦ subst Sampling (sym (bind_there c m there)) x
    | inl none_there ↦ subst Sampling (sym (bind-none c none_there)) (record {
      same = x.same;
      ended =
          λ n h. ground (arith, x.ended n h, stops-append c.waiting (sample c.next_monitor ∷ []) n);
      alive = ground (
        arith,
        live-append (put c.active c.next_monitor true) c.waiting (sample c.next_monitor ∷ []),
        live-put c.active c.next_monitor true c.waiting x.owned,
        x.alive,
        none_there,
      );
      current = λ m h. ground (arith, h, x.current m, none_there);
      owned = ground (
        arith,
        all_owned-append (suc c.next_monitor) c.waiting (sample c.next_monitor ∷ []),
        all_owned-suc c.next_monitor c.waiting x.owned,
      );
      old = λ m h. ground (arith, h);
    })
  ]

  Sampling-unbound : (d : MotionContext) → unbind c ≡ some d → Sampling d
  unfolding is_monitor
  Sampling-unbound d e = elim (Option-cases c.monitor) [
    | inl none_there ↦ absurd (unbind-none c d none_there e)
    | inr (m, there) ↦
        let off : (k : ℕ) → put c.active m false k ≡ false =
          λ k. ground (arith, x.current k, there) in
        subst Sampling (unbind_there c d m there e) (record {
          same = x.same;
          ended = x.ended;
          alive = live-off (put c.active m false) c.waiting off;
          current = λ k h. ground (arith, h, off k);
          owned = x.owned;
          old = λ k h. ground (arith, h);
        })
  ]

  Sampling-destroyed : Sampling (on_destroy c)
  unfolding on_destroy includes
  Sampling-destroyed = record {
    same =
        nothing_in (unregister_all c.listening c.registered)
          (λ n. ground (arith, includes-unregister_all c.listening c.registered n, x.same));
    ended = λ n h. ground (arith, h);
    alive = x.alive;
    current = x.current;
    owned = x.owned;
    old = x.old;
  }

  module _ (xs : List Runnable) (ys : List Runnable) where
    Sampling-sample :
        (m : ℕ)
        → c.waiting ≡ xs +++ (sample m ∷ ys)
        → Sampling (run true (sample m) (record c { waiting = xs +++ ys }))
    unfolding run live stops all_owned owner includes
    Sampling-sample m e = record {
      same = ap (λ l. c.next_node ∷ l) x.same;
      ended = λ n h. ground (
        arith,
        h,
        x.ended n,
        ap (λ l. stops l n) e,
        stops-append xs (sample m ∷ ys) n,
        stops-append xs ys n,
        stops-append (xs +++ ys) (stop m c.next_node ∷ []) n,
      );
      alive = ground (
        arith,
        x.alive,
        ap (live c.active) e,
        live-append c.active xs (sample m ∷ ys),
        live-append c.active xs ys,
        live-append c.active (xs +++ ys) (stop m c.next_node ∷ []),
      );
      current = x.current;
      owned = ground (
        arith,
        x.owned,
        ap (all_owned c.next_monitor) e,
        all_owned-append c.next_monitor xs (sample m ∷ ys),
        all_owned-append c.next_monitor xs ys,
        all_owned-append c.next_monitor (xs +++ ys) (stop m c.next_node ∷ []),
      );
      old = x.old;
    }

    Sampling-stop :
        (m k : ℕ)
        → c.waiting ≡ xs +++ (stop m k ∷ ys)
        → Sampling (run true (stop m k) (record c { waiting = xs +++ ys }))
    unfolding run live stops all_owned owner
    Sampling-stop m k e = record {
      same = ground (arith, x.same, without-absent c.listening k);
      ended = λ n h. ground (
        arith,
        h,
        x.ended n,
        includes-without c.listening k n,
        ap (λ l. stops l n) e,
        stops-append xs (stop m k ∷ ys) n,
        stops-append xs ys n,
        stops-append (xs +++ ys) (sample m ∷ []) n,
      );
      alive = ground (
        arith,
        x.alive,
        ap (live c.active) e,
        live-append c.active xs (stop m k ∷ ys),
        live-append c.active xs ys,
        live-append c.active (xs +++ ys) (sample m ∷ []),
      );
      current = x.current;
      owned = ground (
        arith,
        x.owned,
        ap (all_owned c.next_monitor) e,
        all_owned-append c.next_monitor xs (stop m k ∷ ys),
        all_owned-append c.next_monitor xs ys,
        all_owned-append c.next_monitor (xs +++ ys) (sample m ∷ []),
      );
      old = x.old;
    }

Sampling-ran :
    (c : MotionContext) (x : Sampling c) (xs ys : List Runnable) (r : Runnable)
    → c.waiting ≡ xs +++ (r ∷ ys)
    → Sampling (run true r (record c { waiting = xs +++ ys }))
Sampling-ran c x xs ys (sample m) e = Sampling-sample c x xs ys m e
Sampling-ran c x xs ys (stop m k) e = Sampling-stop c x xs ys m k e

Sampling-Step : {c d : MotionContext} → Step c d → Sampling c → Sampling d
Sampling-Step {c} bound x = Sampling-bound c x
Sampling-Step {c} (unbound d e) x = Sampling-unbound c x d e
Sampling-Step {c} (ran xs r ys e) x = Sampling-ran c x xs ys r e
Sampling-Step {c} destroyed x = Sampling-destroyed c x

created-Sampling : Sampling on_create
unfolding live stops all_owned is_monitor includes
created-Sampling = record {
  same = refl;
  ended = λ n h. ground (arith, h);
  alive = refl;
  current = λ m h. ground (arith, h);
  owned = refl;
  old = λ m h. ground (arith, h);
}

pub Reached-Sampling : {c : MotionContext} → Reached c → Sampling c
Reached-Sampling created = created-Sampling
Reached-Sampling (stepped r step) = Sampling-Step step (Reached-Sampling r)
