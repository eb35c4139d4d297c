-- ===== src/Lua/Stack/Sizes.antt =====
-- lua_settop to a size: the values that stay and the nils that come.
use sctx.Lua.Index.{index2adr, value_at}
use sctx.Lua.Stack.{pop_values, resize_stack, with_stack, set_top, get_top}
use sctx.Lua.State.{Value, nil, State, ok}
use sctx.Prelude.{
  ℕ, zero, suc, ◌+◌, ◌-◌, ◌≤◌, pos, ◌≡◌, refl, some, List, [], ◌∷◌, ◌++◌, inl, inr, leb, ltb,
  if◌then◌else◌, length, get_elem?, replicate, length-append, Bool-cases, subst, arith,
}

pop_values-kept :
    (k : ℕ) (xs : List Value)
    → k ≤ length xs
    → (ys : List Value) × (pop_values k xs ≡ some ys)
      × (length ys + k ≡ length xs)
      × ((j : ℕ) → get_elem? ys j ≡ get_elem? xs (k + j))
unfolding pop_values
pop_values-kept zero xs h = (xs, refl, ground arith, λ j. ground arith)
pop_values-kept (suc k) [] h = absurd (omega (arith, h))
pop_values-kept (suc k) (x ∷ xs) h =
    let (ys, popped, size, kept) = pop_values-kept k xs (omega (arith, h)) in
    (ys, popped, omega (arith, size), λ j. next-kept ys j (kept j))
  where
    next-kept :
        (ys : List Value) (j : ℕ)
        → get_elem? ys j ≡ get_elem? xs (k + j)
        → get_elem? ys j ≡ get_elem? (x ∷ xs) (suc k + j)
    next-kept ys j e =
        let next : suc (k + j) ≡ suc k + j = omega arith in
        subst (λ n. get_elem? ys j ≡ get_elem? (x ∷ xs) n) next e

length-replicate : (k : ℕ) → length (replicate k nil) ≡ k
length-replicate zero = refl
length-replicate (suc k) = omega (arith, length-replicate k)

get_elem?-fill :
    (k : ℕ) (xs : List Value) (j : ℕ)
    → get_elem? (replicate k nil ++ xs) j ≡ (if ltb j k then some nil else get_elem? xs (j - k))
get_elem?-fill zero xs j = ground arith
get_elem?-fill (suc k) xs zero = ground arith
get_elem?-fill (suc k) xs (suc j) = ground (arith, get_elem?-fill k xs j)

-- The stack of `n` values that lua_settop makes of `xs`: place `i` from the bottom keeps its value,
-- or is new and nil.
resize_stack-kept :
    (n : ℕ) (xs : List Value)
    → (ys : List Value) × (resize_stack n xs ≡ some ys)
      × (length ys ≡ n)
      × ((i : ℕ)
          → 1 ≤ i
          → i ≤ n
          → get_elem? ys (n - i)
            ≡ (if leb i (length xs) then get_elem? xs (length xs - i) else some nil))
unfolding resize_stack
resize_stack-kept n xs = elim (Bool-cases (leb n (length xs))) [
  | inl shorter ↦
      let (ys, popped, size, kept) = pop_values-kept (length xs - n) xs (omega arith) in
      (
        ys,
        ground (arith, shorter, popped),
        ground (arith, shorter, size),
        λ i low high. ground (arith, shorter, kept (n - i)),
      )
  | inr longer ↦ (
    replicate (n - length xs) nil ++ xs,
    ground (arith, longer),
    ground (
      arith,
      longer,
      length-append (replicate (n - length xs) nil) xs,
      length-replicate (n - length xs),
    ),
    λ i low high. ground (arith, longer, get_elem?-fill (n - length xs) xs (n - i)),
  )
]

-- lua_settop to `n` succeeds and makes lua_gettop `n`; each place from 1 to `n` keeps its value where
-- the stack had that place, and is nil where it is new.
get_top-set_top :
    (n i : ℕ) (s : State)
    → 1 ≤ i
    → i ≤ n
    → (s' : State) × (set_top (pos n) s ≡ ok tt s')
      × (get_top s' ≡ ok n s')
      × (value_at s' (index2adr s'.stack (pos i))
          ≡ (if leb i (length s.stack) then value_at s (index2adr s.stack (pos i)) else some nil))
unfolding set_top with_stack get_top index2adr value_at
get_top-set_top n i s low high =
    let (ys, resized, size, kept) = resize_stack-kept n s.stack in
    (
      record s { stack = ys },
      ground (arith, resized),
      ground (arith, size),
      ground (arith, size, kept i low high),
    )
