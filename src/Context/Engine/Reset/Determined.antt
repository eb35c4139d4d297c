-- ===== src/Context/Engine/Reset/Determined.antt =====
-- Values of the names of ContextInferenceEngine that agree with the clauses of its symbols.
use sctx.Context.Engine.{Mark, Engine, get_mark}
use sctx.Context.Engine.Marks.{all_true}
use sctx.Context.Engine.Names.{is_named, is_named-at}
use sctx.Context.Engine.Pending.{Shape}
use sctx.Context.Engine.Truth.{one_true}
use sctx.Prelude.{
  ℕ, zero, suc, ◌<◌, ◌≤◌, String, ◌≡◌, refl, Bool, true, false, not, ◌||◌, none, List, [], ◌∷◌,
  str_eq, eq_iff, eq_refl, arith, Bool-cases, ◌⊎◌, inl, inr,
}

absent_later :
    (names : ℕ → String) (k : ℕ) (s : List (String × Mark)) (size : ℕ) (n : String)
    → ((j : ℕ) → k ≤ j → j < size → get_mark s (names j) ≡ none)
    → is_named names size n ≡ true
    → is_named names k n ≡ false
    → get_mark s n ≡ none
unfolding is_named
absent_later names k s zero n h named early = absurd (ground (arith, named))
absent_later names k s (suc size) n h named early = ground (
  arith,
  absent_later names k s size n (λ j l l'. h j l (omega arith)),
  h size,
  is_named-at names k size n,
  eq_iff (names size) n,
  named,
  early,
)

-- The values that matter are those of the literals.
all_true-same :
    (val val' : String → Bool) (s : List (String × Mark))
    → ((n : String) → (get_mark s n ≡ none) ⊎ (val n ≡ val' n))
    → all_true val s ≡ all_true val' s
unfolding all_true get_mark
all_true-same val val' [] h = refl
all_true-same val val' ((k, m) ∷ s) h =
    ground (arith, all_true-same val val' s (λ n. ground (arith, h n, eq_iff k n)), h k, eq_refl k)

one_true-same_values :
    (val val' : String → Bool) (e : Engine) (j n : ℕ)
    → ((i : ℕ)
        → i < n
        → (e.clause i).owner ≡ j
        → all_true val (e.clause i).symbols ≡ all_true val' (e.clause i).symbols)
    → one_true val e j n ≡ one_true val' e j n
unfolding one_true
one_true-same_values val val' e j zero h = refl
one_true-same_values val val' e j (suc n) h =
    ground (arith, one_true-same_values val val' e j n (λ i l o. h i (omega arith) o), h n)

abbrev pub names_of : Engine → ℕ → String
names_of e j = (e.symbols_by_id j).name

module _ (e : Engine) (shape : Shape e) (val val' : String → Bool)
    (true_here : (j : ℕ)
      → j < e.size
      → val (e.symbols_by_id j).name ≡ one_true val e j e.clause_count)
    (true_there : (j : ℕ)
      → j < e.size
      → val' (e.symbols_by_id j).name ≡ one_true val' e j e.clause_count) where
  module _ (others : (n : String) → is_named (names_of e) e.size n ≡ false → val n ≡ val' n) where
    literal_same :
        (k i : ℕ) (m : String)
        → k < e.size
        → i < e.clause_count
        → (e.clause i).owner ≡ k
        → ((is_named (names_of e) k m || not (is_named (names_of e) e.size m)) ≡ true
            → val m ≡ val' m)
        → (get_mark (e.clause i).symbols m ≡ none) ⊎ (val m ≡ val' m)
    literal_same k i m hk l o ih =
        elim (Bool-cases (is_named (names_of e) k m || not (is_named (names_of e) e.size m))) [
          | inl early ↦ inr (ih early)
          | inr late ↦ inl (
              absent_later (names_of e) k (e.clause i).symbols e.size m
                (λ j le lt. shape.earlier i j l lt (omega (arith, o, le))) (ground (arith, late))
                (ground (arith, late)))
        ]

    -- The values of the first `k` symbols and of the names that no symbol has.
    same_below :
        (k : ℕ) (n : String)
        → k ≤ e.size
        → (is_named (names_of e) k n || not (is_named (names_of e) e.size n)) ≡ true
        → val n ≡ val' n
    unfolding is_named
    same_below zero n h early = others n (ground (arith, early))
    same_below (suc k) n h early = elim (Bool-cases (str_eq (names_of e k) n)) [
      | inl same ↦ ground (
        arith,
        eq_iff (names_of e k) n,
        same,
        true_here k,
        true_there k,
        one_true-same_values val val' e k e.clause_count (λ i l o.
            all_true-same val val' (e.clause i).symbols
              (λ m. literal_same k i m (omega (arith, h)) l o (same_below k m (omega (arith, h))))),
      )
      | inr other ↦ same_below k n (omega (arith, h)) (ground (arith, early, other))
    ]

    -- Two valuations that give the symbols what their clauses say are the same if they agree on the
    -- names that no symbol has.
    pub values_same : (n : String) → val n ≡ val' n
    values_same n = same_below e.size n (omega arith) (ground arith)
