-- ===== src/Bridge/Objects/Marks.antt =====
-- What isJavaObject of jni/luajava/luajava.c decides.
use sctx.Bridge.Objects.{object_ind, is_java_object}
use sctx.Lua.Access.{is_nil_value, is_userdata_value}
use sctx.Lua.Heap.{metatable_of}
use sctx.Lua.Index.{index2adr, value_at}
use sctx.Lua.State.{Value, string, Table, State, ok, table_get}
use sctx.Prelude.{
  ℕ, ℤ, ◌≡◌, Bool, false, not, Option, none, some, arith, if◌then◌else◌, Bool-cases, Option-cases,
  inl, inr,
}

mark_in : Option Table → Bool
unfolding is_nil_value
mark_in none = false
mark_in (some t) = not (is_nil_value (table_get t.entries (string object_ind)))

-- A userdata whose metatable has an entry under the mark.
unfoldable pub marked : State → Value → Bool
unfolding is_userdata_value mark_in
marked s v =
    if is_userdata_value v
    then elim (metatable_of s v) [ none ↦ false | some m ↦ mark_in (s.tables m) ]
    else false

-- The metatable of a value, if it has one, is a table.
abbrev pub HasTable : State → Value → Type 0
HasTable s v = (m : ℕ) → metatable_of s v ≡ some m → (t : Table) × (s.tables m ≡ some t)

-- At an index that names a value whose metatable, if any, is a table, isJavaObject answers whether
-- the value is a userdata with the mark in its metatable, and on every branch leaves the stack and
-- all else as it was.
pub is_java_object-marked :
    (s : State) (idx : ℤ) (v : Value)
    → value_at s (index2adr s.stack idx) ≡ some v
    → HasTable s v
    → is_java_object idx s ≡ ok (marked s v) s
unfolding is_java_object marked
is_java_object-marked s idx v at sound = elim (Bool-cases (is_userdata_value v)) [
  | inr no_block ↦ ground arith
  | inl is_block ↦ elim (Option-cases (metatable_of s v)) [
    | inl bare ↦ ground arith
    | inr (m, has) ↦ let (t, e) = sound m has in ground arith
  ]
]
