-- ===== src/Context/Engine/Marks.antt =====
-- The literals of one clause of ContextInferenceEngine: what notifySymbol does to them.
use sctx.Context.Engine.{
  Mark, wait_true, wait_false, met_true, met_false, Clause, get_mark, put_mark, notify_mark,
  notify_symbol,
}
use sctx.Prelude.{
  not, ◌&&◌, ℕ, ◌+◌, String, ◌≡◌, refl, Bool, true, false, none, some, List, [], ◌∷◌, arith, str_eq,
  eq_iff, if◌then◌else◌, Option-cases, inl, inr,
}
use mathlib.Core.Option

unfoldable pub weight : Mark → ℕ
weight wait_true = 1
weight wait_false = 1
weight met_true = 0
weight met_false = 0

-- The literals that wait.
unfoldable pub unmet : List (String × Mark) → ℕ
unfolding weight
unmet [] = 0
unmet ((k, m) ∷ s) = weight m + unmet s

unmet-put_mark :
    (s : List (String × Mark)) (k : String) (m n : Mark)
    → get_mark s k ≡ some m
    → unmet (put_mark s k n) + weight m ≡ unmet s + weight n
unfolding get_mark put_mark unmet
unmet-put_mark [] k m n h = ground arith
unmet-put_mark ((j, l) ∷ s) k m n h = ground (arith, unmet-put_mark s k m n)

get_mark-put_mark_self :
    (s : List (String × Mark)) (k : String) (m n : Mark)
    → get_mark s k ≡ some m
    → get_mark (put_mark s k n) k ≡ some n
unfolding get_mark put_mark
get_mark-put_mark_self [] k m n h = ground arith
get_mark-put_mark_self ((j, l) ∷ s) k m n h = ground (arith, get_mark-put_mark_self s k m n)

get_mark-put_mark_ne :
    (s : List (String × Mark)) (k i : String) (n : Mark)
    → str_eq k i ≡ false
    → get_mark (put_mark s k n) i ≡ get_mark s i
unfolding get_mark put_mark
get_mark-put_mark_ne [] k i n h = refl
get_mark-put_mark_ne ((j, l) ∷ s) k i n h =
    ground (arith, eq_iff k i, eq_iff j k, eq_iff j i, get_mark-put_mark_ne s k i n)

-- A literal that has been told a value stays as it is when told again.
pub notify_mark-notify_mark :
    (m : Mark) (v : Bool) → notify_mark (notify_mark m v) v ≡ notify_mark m v
unfolding notify_mark
notify_mark-notify_mark m v = ground arith

-- The literals after a notification: the notified one follows the value, the others are kept.
pub get_mark-notify_symbol :
    (c : Clause) (k i : String) (v : Bool)
    → get_mark (notify_symbol c k v).symbols i ≡ (
        if str_eq k i
        then Option.map (λ m. notify_mark m v) (get_mark c.symbols i)
        else get_mark c.symbols i)
unfolding notify_symbol
get_mark-notify_symbol c k i v = elim (Option-cases (get_mark c.symbols k)) [
  | inl absent ↦ ground (arith, eq_iff k i)
  | inr (m, has) ↦ ground (
    arith,
    eq_iff k i,
    get_mark-put_mark_self c.symbols k m (notify_mark m v) has,
    get_mark-put_mark_ne c.symbols k i (notify_mark m v),
  )
]

-- No name stands twice, as in a map.
unfoldable pub unique : List (String × Mark) → Bool
unfolding get_mark
unique [] = true
unique ((k, m) ∷ s) = elim (get_mark s k) [ none ↦ unique s | some n ↦ false ]

get_mark-put_mark-none :
    (s : List (String × Mark)) (k j : String) (n : Mark)
    → get_mark s j ≡ none
    → get_mark (put_mark s k n) j ≡ none
unfolding get_mark put_mark
get_mark-put_mark-none [] k j n h = refl
get_mark-put_mark-none ((i, m) ∷ s) k j n h = ground (arith, get_mark-put_mark-none s k j n)

unique-put_mark :
    (s : List (String × Mark)) (k : String) (n : Mark)
    → unique s ≡ true
    → unique (put_mark s k n) ≡ true
unfolding put_mark unique
unique-put_mark [] k n h = refl
unique-put_mark ((j, l) ∷ s) k n h =
    ground (arith, unique-put_mark s k n, get_mark-put_mark-none s k j n)

-- The count is the number of the literals that wait, and no name stands twice.
abbrev pub IsExact : Clause → Type 0
IsExact c = (c.waiting_count ≡ unmet c.symbols) × (unique c.symbols ≡ true)

pub notify_symbol-IsExact :
    (c : Clause) (k : String) (v : Bool) → IsExact c → IsExact (notify_symbol c k v)
unfolding notify_symbol weight
notify_symbol-IsExact c k v h = elim (Option-cases (get_mark c.symbols k)) [
  | inl absent ↦ ground arith
  | inr (m, has) ↦ ground (
    arith,
    unmet-put_mark c.symbols k m (notify_mark m v) has,
    unique-put_mark c.symbols k (notify_mark m v),
  )
]

pub owner-notify_symbol :
    (c : Clause) (k : String) (v : Bool) → (notify_symbol c k v).owner ≡ c.owner
unfolding notify_symbol
owner-notify_symbol c k v = ground arith

-- The literal is true where its symbol has the value.
unfoldable pub literal_true : Mark → Bool → Bool
literal_true wait_true v = v
literal_true met_true v = v
literal_true wait_false v = not v
literal_true met_false v = not v

-- The conjunction of the literals.
unfoldable pub all_true : (String → Bool) → List (String × Mark) → Bool
unfolding literal_true
all_true val [] = true
all_true val ((k, m) ∷ s) = literal_true m (val k) && all_true val s

literal_true-notify_mark :
    (m : Mark) (v w : Bool) → literal_true (notify_mark m v) w ≡ literal_true m w
unfolding literal_true notify_mark
literal_true-notify_mark m v w = ground arith

all_true-put_mark :
    (val : String → Bool) (s : List (String × Mark)) (k : String) (m : Mark) (v : Bool)
    → get_mark s k ≡ some m
    → all_true val (put_mark s k (notify_mark m v)) ≡ all_true val s
unfolding all_true get_mark put_mark
all_true-put_mark val [] k m v h = refl
all_true-put_mark val ((j, l) ∷ s) k m v h =
    ground (arith, all_true-put_mark val s k m v, literal_true-notify_mark m v (val j))

-- A notification changes no literal's meaning.
pub all_true-notify_symbol :
    (val : String → Bool) (c : Clause) (k : String) (v : Bool)
    → all_true val (notify_symbol c k v).symbols ≡ all_true val c.symbols
unfolding notify_symbol
all_true-notify_symbol val c k v = elim (Option-cases (get_mark c.symbols k)) [
  | inl absent ↦ ground arith
  | inr (m, has) ↦ ground (arith, all_true-put_mark val c.symbols k m v has)
]
