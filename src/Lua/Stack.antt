-- ===== src/Lua/Stack.antt =====
-- Basic stack manipulation and the push functions of jni/lua/lapi.c. The limit of the C stack and
-- exhausted memory are left out: a push always finds room.
pub mod Moves
pub mod Sizes
use sctx.Prelude.{
  ℕ, zero, suc, ◌-◌, String, ℤ, pos, negsuc, Bool, Option, none, some, List, [], ◌∷◌, ◌++◌, leb,
  if◌then◌else◌, length, set, replicate,
}
use sctx.Lua.Index.{Address, slot, registry, environ, globals, upvalue, index2adr, value}
use sctx.Lua.State.{
  CFunction, Value, nil, boolean, number, string, table, function, State, Run, ok, error, fault,
  Lua, ◌>>=◌,
}

-- A result of the C code for a new stack; `none` is a stack that C leaves undefined.
with_stack : State → Option (List Value) → Run (Unit {0})
with_stack s none = fault
with_stack s (some xs) = ok tt (record s { stack = xs })

unfoldable pub push : Value → Lua (Unit {0})
push v s = ok tt (record s { stack = v ∷ s.stack })

unfoldable pub push_nil : Lua (Unit {0})
unfolding push
push_nil = push nil

unfoldable pub push_number : ℤ → Lua (Unit {0})
unfolding push
push_number n = push (number n)

unfoldable pub push_string : String → Lua (Unit {0})
unfolding push
push_string k = push (string k)

unfoldable pub push_boolean : Bool → Lua (Unit {0})
unfolding push
push_boolean b = push (boolean b)

-- lua_pushcclosure with no upvalues: a new closure each time.
unfoldable pub push_c_function : CFunction → Lua (Unit {0})
push_c_function f s = ok tt (record s { stack = function s.fresh f ∷ s.stack; fresh = suc s.fresh })

unfoldable pub get_top : Lua ℕ
get_top s = ok (length s.stack) s

-- The stack without its `k` top values, if there are as many.
unfoldable pub pop_values : ℕ → List Value → Option (List Value)
pop_values zero xs = some xs
pop_values (suc k) [] = none
pop_values (suc k) (x ∷ xs) = pop_values k xs

-- The stack cut or filled with nil to `n` values.
unfoldable pub resize_stack : ℕ → List Value → Option (List Value)
unfolding pop_values
resize_stack n xs =
    if leb n (length xs)
    then pop_values (length xs - n) xs
    else some (replicate (n - length xs) nil ++ xs)

unfoldable pub set_top : ℤ → Lua (Unit {0})
unfolding with_stack resize_stack
set_top (pos n) s = with_stack s (resize_stack n s.stack)
set_top (negsuc k) s = with_stack s (pop_values k s.stack)

-- lua_pop(L, n) is lua_settop(L, -(n) - 1).
unfoldable pub pop : ℕ → Lua (Unit {0})
unfolding set_top
pop n = set_top (negsuc n)

unfoldable pub push_value : ℤ → Lua (Unit {0})
unfolding value push
push_value idx = value idx >>= push

remove_slot : ℕ → List Value → Option (List Value)
remove_slot n [] = none
remove_slot zero (x ∷ xs) = some xs
remove_slot (suc n) (x ∷ xs) = elim (remove_slot n xs) [ none ↦ none | some ys ↦ some (x ∷ ys) ]

-- `v` put below the `n` top values.
put_below : Value → ℕ → List Value → Option (List Value)
put_below v zero xs = some (v ∷ xs)
put_below v (suc n) [] = none
put_below v (suc n) (x ∷ xs) = elim (put_below v n xs) [ none ↦ none | some ys ↦ some (x ∷ ys) ]

insert_slot : ℕ → List Value → Option (List Value)
unfolding put_below
insert_slot n [] = none
insert_slot n (v ∷ xs) = put_below v n xs

replace_slot : ℕ → List Value → Option (List Value)
replace_slot n [] = none
replace_slot zero (v ∷ xs) = some xs
replace_slot (suc n) (v ∷ xs) = if leb (suc n) (length xs) then some (set xs n v) else none

-- lua_remove and lua_insert move stack values only: at a pseudo-index their loops leave C's rules.
at_slot : (ℕ → List Value → Option (List Value)) → Address → Lua (Unit {0})
unfolding with_stack
at_slot f (slot n) s = with_stack s (f n s.stack)
at_slot f _ s = fault

unfoldable pub remove : ℤ → Lua (Unit {0})
unfolding index2adr at_slot remove_slot
remove idx s = at_slot remove_slot (index2adr s.stack idx) s

unfoldable pub insert : ℤ → Lua (Unit {0})
unfolding index2adr at_slot insert_slot
insert idx s = at_slot insert_slot (index2adr s.stack idx) s

-- The stores of lua_replace outside the stack. A registry, a table of globals or an environment
-- that is no table is outside the model.
replace_at : Address → Value → List Value → State → Run (Unit {0})
unfolding with_stack replace_slot
replace_at (slot n) v rest s = with_stack s (replace_slot n (v ∷ rest))
replace_at registry (table t) rest s = ok tt (record s { stack = rest; registry = t })
replace_at globals (table t) rest s = ok tt (record s { stack = rest; globals = t })
replace_at environ (table t) rest s = elim s.frame [
  | none ↦ error (record s { stack = string "no calling environment" ∷ table t ∷ rest })
  | some f ↦ ok tt (record s { stack = rest; frame = some (record f { env = t }) })
]
replace_at (upvalue k) v rest s = elim s.frame [
  | none ↦ fault
  | some f ↦
      if leb (suc k) (length f.upvalues)
      then ok tt
          (record s { stack = rest; frame = some (record f { upvalues = set f.upvalues k v }) })
      else fault
]
replace_at _ v rest s = fault

replace_top : Address → List Value → State → Run (Unit {0})
unfolding replace_at
replace_top a [] s = fault
replace_top a (v ∷ rest) s = replace_at a v rest s

unfoldable pub replace : ℤ → Lua (Unit {0})
unfolding index2adr replace_top
replace idx s = replace_top (index2adr s.stack idx) s.stack s
