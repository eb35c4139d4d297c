-- ===== src/Context/Engine/Counts.antt =====
-- How many clauses of a symbol of ContextInferenceEngine hold.
use sctx.Context.Engine.{Clause, holds, put}
use sctx.Prelude.{ℕ, zero, suc, ◌+◌, ◌≤◌, ◌<◌, ◌≡◌, refl, ◌==◌, if◌then◌else◌, arith}

-- 1 for a clause of symbol `j` that holds, else 0.
unfoldable pub share : Clause → ℕ → ℕ
share c j = if c.owner == j then (if holds c then 1 else 0) else 0

-- The clauses of symbol `j` that hold, among the first `n`.
unfoldable pub holding : ℕ → (ℕ → Clause) → ℕ → ℕ
holding zero f j = 0
holding (suc n) f j = holding n f j + share (f n) j

pub holding-put_above :
    (n : ℕ) (f : ℕ → Clause) (i : ℕ) (c : Clause) (j : ℕ)
    → n ≤ i
    → holding n (put f i c) j ≡ holding n f j
unfolding holding
holding-put_above zero f i c j h = refl
holding-put_above (suc n) f i c j h = ground (arith, holding-put_above n f i c j)

-- A clause that is replaced changes the count of a symbol by its share.
pub holding-put :
    (n : ℕ) (f : ℕ → Clause) (i : ℕ) (c : Clause) (j : ℕ)
    → i < n
    → holding n (put f i c) j + share (f i) j ≡ holding n f j + share c j
unfolding holding
holding-put zero f i c j h = absurd (omega arith)
holding-put (suc n) f i c j h = ground (arith, holding-put n f i c j, holding-put_above n f i c j)

-- A symbol that comes after those of the clauses has none.
pub holding-owned :
    (n k : ℕ) (f : ℕ → Clause) → ((i : ℕ) → i < n → (f i).owner < k) → holding n f k ≡ 0
unfolding holding share
holding-owned zero k f h = refl
holding-owned (suc n) k f h = ground (arith, h n, holding-owned n k f (λ i l. h i (omega arith)))

pub holding-share :
    (n : ℕ) (f g : ℕ → Clause) (j : ℕ)
    → ((i : ℕ) → i < n → share (g i) j ≡ share (f i) j)
    → holding n g j ≡ holding n f j
unfolding holding
holding-share zero f g j h = refl
holding-share (suc n) f g j h =
    ground (arith, holding-share n f g j (λ i l. h i (omega arith)), h n)
