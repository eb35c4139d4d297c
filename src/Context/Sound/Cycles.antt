-- ===== src/Context/Sound/Cycles.antt =====
-- The monitors of SoundContext: each has one runnable that waits, and its listener is there when the
-- runnable that ends the listening runs.
use mathlib.Core.List.{◌++◌ as ◌+++◌}
use sctx.Context.Sound.{Runnable, sample, stop, listen, SoundContext}
use sctx.Prelude.Options.{is_some}
use sctx.Prelude.{
  ℕ, ◌+◌, ◌≤◌, ◌≡◌, Bool, true, false, not, ◌||◌, Option, none, some, List, [], ◌∷◌, ◌==◌,
  if◌then◌else◌, arith,
}

-- The runnables of a monitor that wait, without its listeners.
unfoldable pub cycles : ℕ → List Runnable → ℕ
cycles m [] = 0
cycles m (sample k ∷ rs) = (if k == m then 1 else 0) + cycles m rs
cycles m (stop k ∷ rs) = (if k == m then 1 else 0) + cycles m rs
cycles m (listen l ∷ rs) = cycles m rs

-- Those that end its listening.
unfoldable pub ends : ℕ → List Runnable → ℕ
ends m [] = 0
ends m (sample k ∷ rs) = ends m rs
ends m (stop k ∷ rs) = (if k == m then 1 else 0) + ends m rs
ends m (listen l ∷ rs) = ends m rs

unfoldable pub is_held : Option ℕ → ℕ → Bool
is_held none l = false
is_held (some k) l = k == l

-- The state between two steps.
pub record Cycling (c : SoundContext) : Type 0 where
  pub one : (m : ℕ) → cycles m c.waiting ≤ 1
  pub none_new : (m : ℕ) → c.next_monitor ≤ m → cycles m c.waiting ≡ 0
  pub ended : (m : ℕ) → ends m c.waiting ≡ (if is_some (c.listener m) then 1 else 0)
  pub held : (l : ℕ) → (not (c.listening l) || is_held (c.listener (c.outer l)) l) ≡ true
  pub current : (m : ℕ) → (not (c.active m) || is_held c.monitor m) ≡ true
  pub awake : (m : ℕ) → (not (is_held c.monitor m) || c.active m) ≡ true
  pub going : (m : ℕ) → (not (is_held c.monitor m) || (cycles m c.waiting == 1)) ≡ true

pub cycles-append :
    (m : ℕ) (xs ys : List Runnable) → cycles m (xs +++ ys) ≡ cycles m xs + cycles m ys
unfolding cycles
cycles-append m [] ys = omega arith
cycles-append m (sample k ∷ xs) ys = omega (arith, cycles-append m xs ys)
cycles-append m (stop k ∷ xs) ys = omega (arith, cycles-append m xs ys)
cycles-append m (listen l ∷ xs) ys = cycles-append m xs ys

pub ends-append : (m : ℕ) (xs ys : List Runnable) → ends m (xs +++ ys) ≡ ends m xs + ends m ys
unfolding ends
ends-append m [] ys = omega arith
ends-append m (sample k ∷ xs) ys = ends-append m xs ys
ends-append m (stop k ∷ xs) ys = omega (arith, ends-append m xs ys)
ends-append m (listen l ∷ xs) ys = ends-append m xs ys

pub ends-le-cycles : (m : ℕ) (xs : List Runnable) → ends m xs ≤ cycles m xs
unfolding ends cycles
ends-le-cycles m [] = omega arith
ends-le-cycles m (sample k ∷ xs) = omega (arith, ends-le-cycles m xs)
ends-le-cycles m (stop k ∷ xs) = omega (arith, ends-le-cycles m xs)
ends-le-cycles m (listen l ∷ xs) = ends-le-cycles m xs
