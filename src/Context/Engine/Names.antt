-- ===== src/Context/Engine/Names.antt =====
-- The names of the keys of the queue of ContextInferenceEngine, and lists of such names.
use sctx.Prelude.{
  ℕ, zero, suc, ◌<◌, ◌≤◌, String, ◌≡◌, refl, Bool, true, false, not, ◌||◌, ◌&&◌, List, [], ◌∷◌,
  str_eq, eq_iff, eq_refl, Bool-cases, inl, inr, arith, subst,
}

-- The name of one of the first `k` keys.
unfoldable pub is_named : (ℕ → String) → ℕ → String → Bool
is_named names zero n = false
is_named names (suc k) n = str_eq (names k) n || is_named names k n

pub is_named-at :
    (names : ℕ → String) (k j : ℕ) (n : String)
    → j < k
    → str_eq (names j) n ≡ true
    → is_named names k n ≡ true
unfolding is_named
is_named-at names zero j n h same = absurd (omega (arith, h))
is_named-at names (suc k) j n h same = ground (arith, is_named-at names k j n, same)

pub is_named-all :
    (p : String → Bool) (names : ℕ → String) (k : ℕ) (n : String)
    → ((j : ℕ) → j < k → p (names j) ≡ true)
    → is_named names k n ≡ true
    → p n ≡ true
unfolding is_named
is_named-all p names zero n h named = ground (arith, named)
is_named-all p names (suc k) n h named = elim (Bool-cases (str_eq (names k) n)) [
  | inl same ↦
      subst (λ m. p m ≡ true) (ground (arith, eq_iff (names k) n, same)) (h k (omega arith))
  | inr other ↦
      is_named-all p names k n (λ j l. h j (omega (arith, l))) (ground (arith, named, other))
]

unfoldable pub has_name : List String → String → Bool
has_name [] n = false
has_name (m ∷ ms) n = str_eq m n || has_name ms n

-- No name stands twice.
unfoldable pub distinct_names : List String → Bool
unfolding has_name
distinct_names [] = true
distinct_names (n ∷ ns) = not (has_name ns n) && distinct_names ns

unfoldable pub all_named : (ℕ → String) → ℕ → List String → Bool
unfolding is_named
all_named names k [] = true
all_named names k (n ∷ ns) = is_named names k n && all_named names k ns

is_named_mono :
    (names : ℕ → String) (j k : ℕ) (n : String)
    → j ≤ k
    → is_named names j n ≡ true
    → is_named names k n ≡ true
unfolding is_named
is_named_mono names zero k n h named = ground (arith, named)
is_named_mono names (suc j) k n h named =
    ground (arith, is_named-at names k j n, is_named_mono names j k n, named)

pub all_named_mono :
    (names : ℕ → String) (j k : ℕ) (ns : List String)
    → j ≤ k
    → all_named names j ns ≡ true
    → all_named names k ns ≡ true
unfolding all_named
all_named_mono names j k [] h named = refl
all_named_mono names j k (n ∷ ns) h named =
    ground (arith, all_named_mono names j k ns, is_named_mono names j k n, h)

pub all_named-has_name :
    (names : ℕ → String) (k : ℕ) (ms : List String) (n : String)
    → all_named names k ms ≡ true
    → has_name ms n ≡ true
    → is_named names k n ≡ true
unfolding all_named has_name
all_named-has_name names k [] n h has = ground (arith, has)
all_named-has_name names k (m ∷ ms) n h has =
    ground (arith, all_named-has_name names k ms n, eq_iff m n, h, has)

-- A name that none of the keys has is in no list of their names.
pub has_name-later :
    (names : ℕ → String) (k : ℕ) (ms : List String) (n : String)
    → ((j : ℕ) → j < k → str_eq (names j) n ≡ false)
    → all_named names k ms ≡ true
    → has_name ms n ≡ false
has_name-later names k ms n later named = ground (
  arith,
  all_named-has_name names k ms n named,
  is_named-all (λ m. not (str_eq m n)) names k n (λ j l. ground (arith, later j l)),
  eq_refl n,
)
