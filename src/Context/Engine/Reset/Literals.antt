-- ===== src/Context/Engine/Reset/Literals.antt =====
-- What resetSymbolValues of ContextInferenceEngine does to one clause, and to the clauses of one
-- symbol.
use sctx.Context.Engine.{Mark, Clause, get_mark}
use sctx.Context.Engine.Counts.{share, holding, holding-put_above}
use sctx.Context.Engine.Marks.{literal_true, all_true, unmet, weight, unique, IsExact}
use sctx.Context.Engine.Parse.{mark_of, waits}
use sctx.Context.Engine.Pending.{mark_ok}
use sctx.Context.Engine.Reset.{positive, reset_literals, reset_clause, reset_owned}
use sctx.Prelude.{
  ℕ, zero, suc, ◌+◌, ◌-◌, ◌≤◌, String, ◌≡◌, refl, Bool, true, ◌&&◌, Option, none, List, [], ◌∷◌,
  ◌==◌, ltb, eq_iff, if◌then◌else◌, length, arith,
}
use mathlib.Core.Option

module _ (val : String → Bool) where
  get_mark-reset_literals :
      (s : List (String × Mark)) (w : ℕ) (n : String)
      → get_mark (reset_literals val s w).1 n
        ≡ Option.map (λ m. mark_of (positive m) (val n)) (get_mark s n)
  unfolding get_mark reset_literals
  get_mark-reset_literals [] w n = refl
  get_mark-reset_literals ((k, m) ∷ s) w n =
      let w' = if waits (mark_of (positive m) (val k)) then w else w - 1 in
      ground (arith, get_mark-reset_literals s w' n, eq_iff k n)

  unique-reset_literals :
      (s : List (String × Mark)) (w : ℕ)
      → unique s ≡ true
      → unique (reset_literals val s w).1 ≡ true
  unfolding unique reset_literals
  unique-reset_literals [] w h = refl
  unique-reset_literals ((k, m) ∷ s) w h =
      let w' = if waits (mark_of (positive m) (val k)) then w else w - 1 in
      ground (arith, unique-reset_literals s w', get_mark-reset_literals s w' k)

  -- The count loses one for each literal that does not wait.
  count-reset_literals :
      (s : List (String × Mark)) (w : ℕ)
      → length s ≤ w
      → (reset_literals val s w).0 + length s ≡ w + unmet (reset_literals val s w).1
  unfolding reset_literals unmet weight waits
  count-reset_literals [] w h = refl
  count-reset_literals ((k, m) ∷ s) w h =
      let m' = mark_of (positive m) (val k) in
      ground (arith, count-reset_literals s (if waits m' then w else w - 1))

  pub reset_clause-IsExact : (c : Clause) → unique c.symbols ≡ true → IsExact (reset_clause val c)
  unfolding reset_clause
  reset_clause-IsExact c h = (
    omega (arith, count-reset_literals c.symbols (length c.symbols)),
    unique-reset_literals c.symbols (length c.symbols) h,
  )

  told :
      (o : Option Mark) (v : Bool) → mark_ok (Option.map (λ m. mark_of (positive m) v) o) v ≡ true
  unfolding mark_ok mark_of
  told o v = ground arith

  pub reset_clause-agrees :
      (c : Clause) (n : String) → mark_ok (get_mark (reset_clause val c).symbols n) (val n) ≡ true
  unfolding reset_clause
  reset_clause-agrees c n =
      rw (get_mark-reset_literals c.symbols (length c.symbols) n)
        (told (get_mark c.symbols n) (val n))

  pub reset_clause-absent :
      (c : Clause) (n : String)
      → get_mark c.symbols n ≡ none
      → get_mark (reset_clause val c).symbols n ≡ none
  unfolding reset_clause
  reset_clause-absent c n h =
      ground (arith, get_mark-reset_literals c.symbols (length c.symbols) n, h)

  all_true-reset_literals :
      (val' : String → Bool) (s : List (String × Mark)) (w : ℕ)
      → all_true val' (reset_literals val s w).1 ≡ all_true val' s
  unfolding all_true reset_literals literal_true mark_of positive
  all_true-reset_literals val' [] w = refl
  all_true-reset_literals val' ((k, m) ∷ s) w =
      let m' = mark_of (positive m) (val k) in
      ground (arith, all_true-reset_literals val' s (if waits m' then w else w - 1))

  pub all_true-reset_clause :
      (val' : String → Bool) (c : Clause)
      → all_true val' (reset_clause val c).symbols ≡ all_true val' c.symbols
  unfolding reset_clause
  all_true-reset_clause val' c = all_true-reset_literals val' c.symbols (length c.symbols)

  pub owner-reset_clause : (c : Clause) → (reset_clause val c).owner ≡ c.owner
  unfolding reset_clause
  owner-reset_clause c = refl

  -- The loop resets the clauses of its symbol and no others.
  pub reset_owned-at :
      (j n : ℕ) (f : ℕ → Clause) (i : ℕ)
      → (reset_owned val j n f).0 i
        ≡ (if ltb i n && ((f i).owner == j) then reset_clause val (f i) else f i)
  unfolding reset_owned
  reset_owned-at j zero f i = ground arith
  reset_owned-at j (suc n) f i =
      ground (arith, reset_owned-at j n f i, reset_owned-at j n f n, owner-reset_clause (f i))

  pub holding-reset_owned :
      (j n : ℕ) (f : ℕ → Clause) → (reset_owned val j n f).1 ≡ holding n (reset_owned val j n f).0 j
  unfolding reset_owned holding share
  holding-reset_owned j zero f = refl
  holding-reset_owned j (suc n) f =
      let g = (reset_owned val j n f).0 in
      ground (
        arith,
        holding-reset_owned j n f,
        holding-put_above n g n (reset_clause val (g n)) j (omega arith),
        owner-reset_clause (g n),
      )
