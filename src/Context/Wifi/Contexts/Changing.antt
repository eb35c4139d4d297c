-- ===== src/Context/Wifi/Contexts/Changing.antt =====
-- The contexts after setWifiScanResult of WifiContext.
use sctx.Context.Smart.{SmartContext}
use sctx.Context.Smart.Counted.{WellFormed, count}
use sctx.Context.Wifi.{WifiRule, change_context, change_contexts}
use sctx.Context.Wifi.Contexts.{now, before, in_range, IsMoved, change_context-IsMoved}
use sctx.Prelude.{
  ℕ, ◌+◌, ◌<◌, ◌≤◌, String, ◌≡◌, Bool, true, ◌&&◌, Option, none, some, List, [], ◌∷◌, length, arith,
}
use sctx.Prelude.Options.{◌>>=◌}

-- The sum of the parts of the rules.
unfoldable pub total : (WifiRule → String → ℕ) → (ℕ → WifiRule) → List ℕ → String → ℕ
total part f [] n = 0
total part f (i ∷ is) n = part (f i) n + total part f is n

unfoldable pub all_in_range : (ℕ → WifiRule) → List ℕ → Bool
unfolding in_range
all_in_range f [] = true
all_in_range f (i ∷ is) = in_range (f i) && all_in_range f is

total-le : (f : ℕ → WifiRule) (is : List ℕ) (n : String) → total before f is n ≤ length is
unfolding total before
total-le f [] n = omega arith
total-le f (i ∷ is) n = ground (arith, total-le f is n)

-- The counts are a base and the parts of the rules.
pub record Settled (base : String → ℕ) (f : ℕ → WifiRule) (is : List ℕ) (s : SmartContext)
    : Type 0 where
  pub well_formed : WellFormed s
  pub counts : (n : String) → count s n ≡ base n + total now f is n

abbrev pub IsSettled : (String → ℕ) → (ℕ → WifiRule) → List ℕ → Option SmartContext → Type 0
IsSettled base f is none = ⊥
IsSettled base f is (some s) = Settled base f is s

module _ (f : ℕ → WifiRule) where
  abbrev with_now : (String → ℕ) → ℕ → String → ℕ
  with_now base i n = base n + now (f i) n

  Settled-cons :
      (base : String → ℕ) (i : ℕ) (is : List ℕ) (o : Option SmartContext)
      → IsSettled (with_now base i) f is o
      → IsSettled base f (i ∷ is) o
  unfolding total
  Settled-cons base i is none done = done
  Settled-cons base i is (some s) done = record {
    well_formed = done.well_formed;
    counts = λ n. omega (arith, done.counts n);
  }

  IsSettled-chain :
      (base : String → ℕ) (i : ℕ) (is : List ℕ) (s : SmartContext) (o : Option SmartContext)
      → IsMoved (f i) s o
      → ((n : String) → count s n ≡ base n + (before (f i) n + total before f is n))
      → ((s' : SmartContext)
          → WellFormed s'
          → ((n : String) → count s' n ≡ with_now base i n + total before f is n)
          → IsSettled (with_now base i) f is (change_contexts f is s'))
      → IsSettled base f (i ∷ is) (o >>= change_contexts f is)
  IsSettled-chain base i is s none moved h rest = moved
  IsSettled-chain base i is s (some s') moved h rest =
      Settled-cons base i is (change_contexts f is s')
        (rest s' moved.well_formed (λ n. omega (arith, moved.counts n, h n)))

  pub change_contexts-IsSettled :
      (base : String → ℕ) (is : List ℕ) (s : SmartContext)
      → all_in_range f is ≡ true
      → ((n : String) → base n + length is < 2147483648)
      → WellFormed s
      → ((n : String) → count s n ≡ base n + total before f is n)
      → IsSettled base f is (change_contexts f is s)
  unfolding change_contexts all_in_range total now
  change_contexts-IsSettled base [] s range bound w h = record { well_formed = w; counts = h }
  change_contexts-IsSettled base (i ∷ is) s range bound w h =
      let r = f i in
      let c = r.result_context in
      IsSettled-chain base i is s (change_context r s)
        (change_context-IsMoved r s (ground (arith, range)) w
          (omega (arith, h c, bound c, total-le f is c)) (omega (arith, h c)))
        h
        (λ s' w' h'.
          change_contexts-IsSettled (with_now base i) is s' (ground (arith, range))
            (λ n. ground (arith, bound n)) w' h')
