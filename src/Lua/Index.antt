-- ===== src/Lua/Index.antt =====
-- index2adr of jni/lua/lapi.c: what a stack index or pseudo-index names.
use sctx.Prelude.{
  ℕ, ◌-◌, ℤ, pos, negsuc, Option, none, some, List, ◌==◌, leb, ltb, if◌then◌else◌, length,
  get_elem?,
}
use sctx.Lua.State.{Value, nil, table, State, ok, fault, Lua}

abbrev pub registry_index : ℤ
registry_index = negsuc 9999

-- What an index names. `slot` counts from the top of the stack.
pub data Address : Type 0 where
  slot : ℕ → Address
  registry environ globals nilobject : Address
  upvalue : ℕ → Address

-- index2adr
unfoldable pub index2adr : List Value → ℤ → Address
index2adr xs (pos i) = if leb i (length xs) then slot (length xs - i) else nilobject
index2adr xs (negsuc n) =
    if ltb n 9999
    then slot n
    else (if n == 9999
        then registry
        else (if n == 10000
            then environ
            else (if n == 10001 then globals else upvalue (n - 10002))))

-- The value at an address. `none` is a read that C leaves undefined: below the frame, or of the
-- running function where none runs.
unfoldable pub value_at : State → Address → Option Value
value_at s (slot n) = get_elem? s.stack n
value_at s registry = some (table s.registry)
value_at s globals = some (table s.globals)
value_at s environ = elim s.frame [ none ↦ none | some f ↦ some (table f.env) ]
value_at s (upvalue k) = elim s.frame [
  | none ↦ none
  | some f ↦ elim (get_elem? f.upvalues k) [ none ↦ some nil | some v ↦ some v ]
]
value_at s nilobject = some nil

unfoldable pub value : ℤ → Lua Value
unfolding index2adr value_at
value idx s = elim (value_at s (index2adr s.stack idx)) [ none ↦ fault | some v ↦ ok v s ]
