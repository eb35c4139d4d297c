-- ===== src/Lua/Heap.antt =====
-- Tables, userdata and metatables through jni/lua/lapi.c, and lua_error. Tables reached by a
-- dangling identity are faults.
use sctx.Prelude.{
  ℕ, suc, ℤ, Bool, true, false, Option, none, some, List, [], ◌∷◌, ◌==◌, if◌then◌else◌,
}
use sctx.Lua.Access.{Pointer, block, type_tag, is_nil_value}
use sctx.Lua.Index.{index2adr, value_at}
use sctx.Lua.State.{
  Value, nil, number, string, table, userdata, Table, State, Run, ok, error, fault, Lua, table_get,
  table_set, update,
}

-- lua_error: the message is the value on top. The message handler of a lua_pcall is left out.
unfoldable pub lua_error : {A : Type 0} → Lua A
lua_error s = elim s.stack [ [] ↦ fault | v ∷ xs ↦ error s ]

-- The table that an index names.
table_at : ℤ → State → Option ℕ
unfolding index2adr value_at
table_at idx s = elim (value_at s (index2adr s.stack idx)) [
  | none ↦ none
  | some v ↦ elim v [ table t ↦ some t | _ ↦ none ]
]

get_entry : State → Table → List Value → Run (Unit {0})
unfolding table_get
get_entry s t [] = fault
get_entry s t (k ∷ xs) = ok tt (record s { stack = table_get t.entries k ∷ xs })

unfoldable pub raw_get : ℤ → Lua (Unit {0})
unfolding table_at get_entry
raw_get idx s = elim (table_at idx s) [
  | none ↦ fault
  | some t ↦ elim (s.tables t) [ none ↦ fault | some table' ↦ get_entry s table' s.stack ]
]

set_entry : State → ℕ → Table → List Value → Run (Unit {0})
unfolding table_set is_nil_value
set_entry s t table' (v ∷ k ∷ xs) =
    if is_nil_value k
    then error (record s { stack = string "table index is nil" ∷ v ∷ k ∷ xs })
    else ok tt (record s {
      stack = xs;
      tables = update s.tables t (record table' { entries = table_set table'.entries k v });
    })
set_entry s t table' _ = fault

unfoldable pub raw_set : ℤ → Lua (Unit {0})
unfolding table_at set_entry
raw_set idx s = elim (table_at idx s) [
  | none ↦ fault
  | some t ↦ elim (s.tables t) [ none ↦ fault | some table' ↦ set_entry s t table' s.stack ]
]

-- lua_rawgeti and lua_rawseti, whose key is a number.
unfoldable pub raw_get_i : ℤ → ℤ → Lua (Unit {0})
unfolding table_at table_get
raw_get_i idx n s = elim (table_at idx s) [
  | none ↦ fault
  | some t ↦ elim (s.tables t) [
    | none ↦ fault
    | some table' ↦ ok tt (record s { stack = table_get table'.entries (number n) ∷ s.stack })
  ]
]

set_number : State → ℕ → Table → ℤ → List Value → Run (Unit {0})
unfolding table_set
set_number s t table' n [] = fault
set_number s t table' n (v ∷ xs) = ok tt (record s {
  stack = xs;
  tables = update s.tables t (record table' { entries = table_set table'.entries (number n) v });
})

unfoldable pub raw_set_i : ℤ → ℤ → Lua (Unit {0})
unfolding table_at set_number
raw_set_i idx n s = elim (table_at idx s) [
  | none ↦ fault
  | some t ↦ elim (s.tables t) [ none ↦ fault | some table' ↦ set_number s t table' n s.stack ]
]

-- lua_createtable
unfoldable pub new_table : Lua (Unit {0})
new_table s = ok tt (record s {
  stack = table s.fresh ∷ s.stack;
  tables = update s.tables s.fresh (record { entries = []; metatable = none });
  fresh = suc s.fresh;
})

-- lua_newuserdata for one pointer: the block's identity. Its content is whatever was in memory, 0
-- here; every caller writes it before anything reads it.
unfoldable pub new_userdata : Lua ℕ
new_userdata s = ok s.fresh (record s {
  stack = userdata s.fresh ∷ s.stack;
  blocks = update s.blocks s.fresh (record { content = 0; metatable = none });
  fresh = suc s.fresh;
})

-- `*p = content` and `*p` through a pointer that lua_touserdata gave.
unfoldable pub write_block : Pointer → ℕ → Lua (Unit {0})
write_block (block u) content s = elim (s.blocks u) [
  | none ↦ fault
  | some b ↦ ok tt (record s { blocks = update s.blocks u (record b { content = content }) })
]
write_block _ content s = fault

unfoldable pub read_block : Pointer → Lua ℕ
read_block (block u) s = elim (s.blocks u) [ none ↦ fault | some b ↦ ok b.content s ]
read_block _ s = fault

-- The metatable of a value.
unfoldable pub metatable_of : State → Value → Option ℕ
unfolding type_tag
metatable_of s (table t) = elim (s.tables t) [ none ↦ none | some table' ↦ table'.metatable ]
metatable_of s (userdata u) = elim (s.blocks u) [ none ↦ none | some b ↦ b.metatable ]
metatable_of s v = s.basic_metatables (type_tag v)

-- lua_getmetatable: the answer is whether a metatable was pushed.
unfoldable pub get_metatable : ℤ → Lua Bool
unfolding index2adr value_at metatable_of
get_metatable idx s = elim (value_at s (index2adr s.stack idx)) [
  | none ↦ fault
  | some v ↦ elim (metatable_of s v) [
    | none ↦ ok false s
    | some m ↦ ok true (record s { stack = table m ∷ s.stack })
  ]
]

set_metatable_of : State → Value → Option ℕ → Run Bool
unfolding type_tag
set_metatable_of s (table t) m = elim (s.tables t) [
  | none ↦ fault
  | some table' ↦
      ok true (record s { tables = update s.tables t (record table' { metatable = m }) })
]
set_metatable_of s (userdata u) m = elim (s.blocks u) [
  | none ↦ fault
  | some b ↦ ok true (record s { blocks = update s.blocks u (record b { metatable = m }) })
]
set_metatable_of s v m =
    ok true (record s {
      basic_metatables = λ tag. if tag == type_tag v then m else s.basic_metatables tag;
    })

-- The new metatable, on top of the stack: nil for none, or a table.
set_metatable_from : State → Value → List Value → Run Bool
unfolding set_metatable_of
set_metatable_from s v (nil ∷ xs) = set_metatable_of (record s { stack = xs }) v none
set_metatable_from s v (table m ∷ xs) = set_metatable_of (record s { stack = xs }) v (some m)
set_metatable_from s v _ = fault

-- lua_setmetatable, which always answers 1.
unfoldable pub set_metatable : ℤ → Lua Bool
unfolding index2adr value_at set_metatable_from
set_metatable idx s = elim (value_at s (index2adr s.stack idx)) [
  | none ↦ fault
  | some v ↦ set_metatable_from s v s.stack
]
