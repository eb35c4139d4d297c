-- ===== src/Context/Motion/Release.antt =====
-- MotionContext after onDestroy of the service: its handler is gone, so the runnables that still wait
-- post nothing, and a monitor that waits registers a listener that nothing ends.
use mathlib.Core.List.{◌++◌ as ◌+++◌}
use sctx.Context.Engine.{includes, put}
use sctx.Context.Motion.{
  Runnable, sample, stop, MotionContext, bind, unbind, run, on_destroy, Step, bound, unbound, ran,
  destroyed, Reached, created, stepped,
}
use sctx.Context.Motion.Kept.{Reached-Sampling}
use sctx.Context.Wifi.Index.{includes-without}
use sctx.Prelude.{
  ℕ, zero, suc, ◌+◌, ◌<◌, ◌≤◌, ◌≡◌, refl, Bool, true, false, ◌&&◌, none, some, List, [], ◌∷◌, ◌∙◌,
  ltb, ap, sym, length, Option-cases, inl, inr, arith,
}

-- The runnables of monitors that wait.
unfoldable pub samples : List Runnable → ℕ
samples [] = 0
samples (sample m ∷ rs) = 1 + samples rs
samples (stop m n ∷ rs) = samples rs

-- The nodes of the other runnables are below `k`.
unfoldable pub all_below : ℕ → List Runnable → Bool
all_below k [] = true
all_below k (sample m ∷ rs) = all_below k rs
all_below k (stop m n ∷ rs) = ltb n k && all_below k rs

samples-append : (xs ys : List Runnable) → samples (xs +++ ys) ≡ samples xs + samples ys
unfolding samples
samples-append [] ys = omega arith
samples-append (sample m ∷ xs) ys = omega (arith, samples-append xs ys)
samples-append (stop m n ∷ xs) ys = samples-append xs ys

length-append : (xs ys : List Runnable) → length (xs +++ ys) ≡ length xs + length ys
length-append [] ys = omega arith
length-append (x ∷ xs) ys = omega (arith, length-append xs ys)

all_below-append :
    (k : ℕ) (xs ys : List Runnable) → all_below k (xs +++ ys) ≡ (all_below k xs && all_below k ys)
unfolding all_below
all_below-append k [] ys = refl
all_below-append k (sample m ∷ xs) ys = all_below-append k xs ys
all_below-append k (stop m n ∷ xs) ys = ground (arith, all_below-append k xs ys)

all_below-suc : (k : ℕ) (xs : List Runnable) → all_below k xs ≡ true → all_below (suc k) xs ≡ true
unfolding all_below
all_below-suc k [] h = refl
all_below-suc k (sample m ∷ xs) h = all_below-suc k xs h
all_below-suc k (stop m n ∷ xs) h = ground (arith, all_below-suc k xs, h)

unbind-kept :
    (c d : MotionContext)
    → unbind c ≡ some d
    → (d.waiting ≡ c.waiting) × (d.next_node ≡ c.next_node)
unfolding unbind
unbind-kept c d e = elim (Option-cases c.monitor) [
  | inl free ↦ absurd (ground (arith, e, free))
  | inr (m, there) ↦
      let same : record c { monitor = none; active = put c.active m false } ≡ d =
        ground (arith, e, there) in
      (
        sym (ap (λ (x : MotionContext). x.waiting) same),
        sym (ap (λ (x : MotionContext). x.next_node) same),
      )
]

-- Every node was made.
Made : MotionContext → Type 0
Made c = all_below c.next_node c.waiting ≡ true

Made-run :
    (c : MotionContext) (xs ys : List Runnable) (r : Runnable)
    → c.waiting ≡ xs +++ (r ∷ ys)
    → Made c
    → Made (run true r (record c { waiting = xs +++ ys }))
unfolding Made run all_below
Made-run c xs ys (sample m) e h = ground (
  arith,
  h,
  ap (all_below c.next_node) e,
  all_below-append c.next_node xs (sample m ∷ ys),
  all_below-append c.next_node xs ys,
  all_below-suc c.next_node (xs +++ ys),
  all_below-append (suc c.next_node) (xs +++ ys) (stop m c.next_node ∷ []),
)
Made-run c xs ys (stop m n) e h = ground (
  arith,
  h,
  ap (all_below c.next_node) e,
  all_below-append c.next_node xs (stop m n ∷ ys),
  all_below-append c.next_node xs ys,
  all_below-append c.next_node (xs +++ ys) (sample m ∷ []),
)

Made-Step : {c d : MotionContext} → Step c d → Made c → Made d
unfolding Made bind on_destroy all_below
Made-Step {c} bound h = elim (Option-cases c.monitor) [
  | inl free ↦
      ground (arith, h, free, all_below-append c.next_node c.waiting (sample c.next_monitor ∷ []))
  | inr (m, there) ↦ ground (arith, h, there)
]
Made-Step {c} (unbound d e) h =
    let (waiting, node) = unbind-kept c d e in
    ap (λ k. all_below k d.waiting) node ∙ (ap (all_below c.next_node) waiting ∙ h)
Made-Step {c} (ran xs r ys e) h = Made-run c xs ys r e h
Made-Step {c} destroyed h = h

Reached-Made : {c : MotionContext} → Reached c → Made c
unfolding Made all_below
Reached-Made created = refl
Reached-Made (stepped r step) = Made-Step step (Reached-Made r)

-- So many runnables ran without the handler, each any one of those that waited.
pub data Runs (c : MotionContext) : ℕ → MotionContext → Type 0 where
  here : Runs c zero c
  next :
      {k : ℕ} {d : MotionContext} (xs : List Runnable) (r : Runnable) (ys : List Runnable)
      → Runs c k d
      → d.waiting ≡ xs +++ (r ∷ ys)
      → Runs c (suc k) (run false r (record d { waiting = xs +++ ys }))

-- After `k` runnables, from a state with nodes below `b` and no listener.
record Late (b all monitors k : ℕ) (d : MotionContext) : Type 0 where
  below : all_below b d.waiting ≡ true
  new : (n : ℕ) → n < b → includes d.listening n ≡ false
  next : b ≤ d.next_node
  left : k + length d.waiting ≡ all
  registers : length d.registered + samples d.waiting ≡ monitors

module _ (b all monitors k : ℕ) (d : MotionContext) (xs ys : List Runnable)
    (x : Late b all monitors k d) where
  Late-run :
      (r : Runnable)
      → d.waiting ≡ xs +++ (r ∷ ys)
      → Late b all monitors (suc k) (run false r (record d { waiting = xs +++ ys }))
  unfolding run samples all_below includes
  Late-run (sample m) e = record {
    below = ground (
      arith,
      x.below,
      ap (all_below b) e,
      all_below-append b xs (sample m ∷ ys),
      all_below-append b xs ys,
    );
    new = λ n h. ground (arith, x.new n, x.next, h);
    next = omega (arith, x.next);
    left =
        omega (arith, x.left, ap length e, length-append xs (sample m ∷ ys), length-append xs ys);
    registers =
        omega (
          arith,
          x.registers,
          ap samples e,
          samples-append xs (sample m ∷ ys),
          samples-append xs ys,
        );
  }
  Late-run (stop m n) e =
      let early : all_below b d.waiting ≡ (all_below b xs && (ltb n b && all_below b ys)) =
        ap (all_below b) e ∙ all_below-append b xs (stop m n ∷ ys) in
      let unheard : includes d.listening n ≡ false = ground (arith, x.below, early, x.new n) in
      record {
        below = ground (arith, x.below, early, all_below-append b xs ys);
        new = λ i h. ground (arith, x.new i h, includes-without d.listening n i);
        next = x.next;
        left =
            ground
              (arith, x.left, ap length e, length-append xs (stop m n ∷ ys), length-append xs ys);
        registers = ground (
          arith,
          unheard,
          x.registers,
          ap samples e,
          samples-append xs (stop m n ∷ ys),
          samples-append xs ys,
        );
      }

Late-Runs :
    {b all monitors : ℕ} {c : MotionContext} {k : ℕ} {d : MotionContext}
    → Late b all monitors zero c
    → Runs c k d
    → Late b all monitors k d
Late-Runs x here = x
Late-Runs {b} {all} {monitors} x (next {k = k} {d = d} xs r ys runs e) =
    Late-run b all monitors k d xs ys (Late-Runs x runs) r e

destroyed-Late :
    (c d : MotionContext)
    → Reached c
    → unbind c ≡ some d
    → Late c.next_node (length c.waiting) (samples c.waiting) zero (on_destroy d)
unfolding Made on_destroy includes
destroyed-Late c d r e =
    let (waiting, node) = unbind-kept c d e in
    let cleared : (on_destroy d).registered ≡ [] =
      (Reached-Sampling (stepped (stepped r (unbound d e)) destroyed)).same in
    record {
      below = ap (all_below c.next_node) waiting ∙ Reached-Made r;
      new = λ n h. refl;
      next = omega (arith, node);
      left = omega (arith, ap length waiting);
      registers = omega (arith, ap samples waiting, ap length cleared);
    }

-- From a state that is reached, when the monitor is unbound and onDestroy is called after the
-- service's handler was cleared: when any k of the runnables that wait ran in any order, those that
-- are left are k fewer than at the start, so each runs once and the last ends them; and as many
-- listeners are registered as runnables of monitors ran, so that none is if none of them waited.
pub Reached-released :
    (c d e : MotionContext) (k : ℕ)
    → Reached c
    → unbind c ≡ some d
    → Runs (on_destroy d) k e
    → (k + length e.waiting ≡ length c.waiting)
      × (length e.registered + samples e.waiting ≡ samples c.waiting)
Reached-released c d e k r u runs =
    let x = Late-Runs (destroyed-Late c d r u) runs in (x.left, x.registers)
