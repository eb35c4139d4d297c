-- ===== src/Lua/Stack/Moves.antt =====
-- lua_insert and lua_remove at places below the top.
use sctx.Lua.Index.{slot, index2adr, value_at}
use sctx.Lua.Stack.{insert, remove, put_below, remove_slot, insert_slot, at_slot, with_stack}
use sctx.Lua.State.{Value, State, ok}
use sctx.Prelude.{
  ℕ, zero, suc, ◌≤◌, ◌<◌, negsuc, ◌≡◌, refl, some, List, [], ◌∷◌, length, get_elem?, lt→ltb, arith,
}

remove_slot-put_below :
    (v : Value) (n : ℕ) (xs : List Value)
    → n ≤ length xs
    → (ys : List Value) × (put_below v n xs ≡ some ys)
      × (remove_slot n ys ≡ some xs)
      × (get_elem? ys n ≡ some v)
unfolding put_below remove_slot
remove_slot-put_below v zero xs h = (v ∷ xs, refl, refl, refl)
remove_slot-put_below v (suc n) [] h = absurd (omega (arith, h))
remove_slot-put_below v (suc n) (x ∷ xs) h =
    let (ys, put, removed, found) = remove_slot-put_below v n xs (omega (arith, h)) in
    (x ∷ ys, rw put refl, rw removed refl, found)

index2adr-slot : (xs : List Value) (n : ℕ) → n < 9999 → index2adr xs (negsuc n) ≡ slot n
unfolding index2adr
index2adr-slot xs n h = ground (arith, lt→ltb n 9999 h)

-- For a negative index that is a place of the stack: lua_insert succeeds and moves the value on top
-- to that place, where it is read, and lua_remove at the same index then gives the stack without
-- that value.
remove-insert :
    (n : ℕ) (v : Value) (xs : List Value) (s : State)
    → n ≤ length xs
    → n < 9999
    → s.stack ≡ v ∷ xs
    → (s' : State) × (insert (negsuc n) s ≡ ok tt s')
      × (value_at s' (index2adr s'.stack (negsuc n)) ≡ some v)
      × (remove (negsuc n) s' ≡ ok tt (record s { stack = xs }))
unfolding insert remove insert_slot at_slot with_stack value_at
remove-insert n v xs s h real top =
    let (ys, put, removed, found) = remove_slot-put_below v n xs h in
    (
      record s { stack = ys },
      ground (arith, index2adr-slot s.stack n real, put),
      ground (arith, index2adr-slot ys n real, found),
      ground (arith, index2adr-slot ys n real, removed),
    )
