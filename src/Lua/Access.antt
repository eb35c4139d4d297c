-- ===== src/Lua/Access.antt =====
-- The access functions of jni/lua/lapi.c, from the stack to C.
use sctx.Prelude.{ℕ, String, ℤ, pos, negsuc, Bool, true, false, Option, none, some, set, ◌==◌}
use sctx.Lua.Index.{Address, slot, nilobject, index2adr, value_at, value}
use sctx.Lua.State.{
  Value, nil, boolean, light_userdata, number, string, table, function, userdata, thread, raw_equal,
  ok, fault, Lua, pure, ◌>>=◌,
}

-- The conversions between numbers and text (luaO_str2d, lua_number2str), which end in the C
-- library's strtod and sprintf.
pub record Conversion : Type 0 where
  pub str2d : String → Option ℤ
  pub number2str : ℤ → String

-- LUA_TNIL, LUA_TBOOLEAN, ... of lua.h.
unfoldable pub type_tag : Value → ℕ
type_tag nil = 0
type_tag (boolean b) = 1
type_tag (light_userdata p) = 2
type_tag (number n) = 3
type_tag (string k) = 4
type_tag (table t) = 5
type_tag (function c f) = 6
type_tag (userdata u) = 7
type_tag (thread t) = 8

unfoldable pub type_at : Address → Value → ℤ
unfolding type_tag
type_at nilobject v = negsuc 0
type_at _ v = pos (type_tag v)

-- lua_type: LUA_TNONE is -1.
unfoldable pub type : ℤ → Lua ℤ
unfolding index2adr value_at type_at
type idx s = elim (value_at s (index2adr s.stack idx)) [
  | none ↦ fault
  | some v ↦ ok (type_at (index2adr s.stack idx) v) s
]

unfoldable pub is_nil_value : Value → Bool
is_nil_value nil = true
is_nil_value _ = false

unfoldable pub is_table_value : Value → Bool
is_table_value (table t) = true
is_table_value _ = false

unfoldable pub is_string_value : Value → Bool
is_string_value (string k) = true
is_string_value (number n) = true
is_string_value _ = false

unfoldable pub is_userdata_value : Value → Bool
is_userdata_value (userdata u) = true
is_userdata_value (light_userdata p) = true
is_userdata_value _ = false

-- luaV_tonumber
unfoldable pub to_number_value : Conversion → Value → Option ℤ
to_number_value c (number n) = some n
to_number_value c (string k) = c.str2d k
to_number_value c _ = none

is_some : Option ℤ → Bool
is_some none = false
is_some (some n) = true

number_or_zero : Option ℤ → ℤ
number_or_zero none = pos 0
number_or_zero (some n) = n

nil_at : Address → Value → Bool
unfolding is_nil_value
nil_at nilobject v = false
nil_at _ v = is_nil_value v

-- lua_isnil: an index above the top names no value, which is not nil.
unfoldable pub is_nil : ℤ → Lua Bool
unfolding index2adr value_at nil_at
is_nil idx s = elim (value_at s (index2adr s.stack idx)) [
  | none ↦ fault
  | some v ↦ ok (nil_at (index2adr s.stack idx) v) s
]

is_tag : ℕ → ℤ → Bool
is_tag n (pos k) = k == n
is_tag n (negsuc k) = false

is_minus_one : ℤ → Bool
is_minus_one (pos k) = false
is_minus_one (negsuc k) = k == 0

is_below : ℤ → Bool
is_below (pos k) = k == 0
is_below (negsuc k) = true

-- lua_isfunction, lua_isboolean, lua_isnone and lua_isnoneornil ask lua_type.
unfoldable pub is_function : ℤ → Lua Bool
unfolding type is_tag
is_function idx = do t ← type idx; pure (is_tag 6 t)

unfoldable pub is_boolean : ℤ → Lua Bool
unfolding type is_tag
is_boolean idx = do t ← type idx; pure (is_tag 1 t)

unfoldable pub is_none : ℤ → Lua Bool
unfolding type is_minus_one
is_none idx = do t ← type idx; pure (is_minus_one t)

unfoldable pub is_none_or_nil : ℤ → Lua Bool
unfolding type is_below
is_none_or_nil idx = do t ← type idx; pure (is_below t)

same_at : Address → Address → Value → Value → Bool
unfolding raw_equal
same_at nilobject b v w = false
same_at a nilobject v w = false
same_at a b v w = raw_equal v w

-- lua_rawequal: a missing value equals none.
unfoldable pub rawequal : ℤ → ℤ → Lua Bool
unfolding value same_at
rawequal i j s =
    (do v ← value i; w ← value j; pure (same_at (index2adr s.stack i) (index2adr s.stack j) v w)) s

unfoldable pub is_table : ℤ → Lua Bool
unfolding value is_table_value
is_table idx = do v ← value idx; pure (is_table_value v)

unfoldable pub is_string : ℤ → Lua Bool
unfolding value is_string_value
is_string idx = do v ← value idx; pure (is_string_value v)

unfoldable pub is_userdata : ℤ → Lua Bool
unfolding value is_userdata_value
is_userdata idx = do v ← value idx; pure (is_userdata_value v)

unfoldable pub is_number : Conversion → ℤ → Lua Bool
unfolding value to_number_value is_some
is_number c idx = do v ← value idx; pure (is_some (to_number_value c v))

unfoldable pub to_number : Conversion → ℤ → Lua ℤ
unfolding value to_number_value number_or_zero
to_number c idx = do v ← value idx; pure (number_or_zero (to_number_value c v))

unfoldable pub to_boolean_value : Value → Bool
to_boolean_value nil = false
to_boolean_value (boolean false) = false
to_boolean_value _ = true

unfoldable pub to_boolean : ℤ → Lua Bool
unfolding value to_boolean_value
to_boolean idx = do v ← value idx; pure (to_boolean_value v)

-- A number that lua_tolstring reads on the stack becomes a string there.
unfoldable pub string_at : Conversion → Address → Value → Lua (Option String)
string_at c a (string k) s = ok (some k) s
string_at c (slot i) (number n) s =
    ok (some (c.number2str n)) (record s { stack = set s.stack i (string (c.number2str n)) })
string_at c a _ s = ok none s

-- lua_tolstring, whose NULL is `none`. A number in an upvalue would change there and reads as NULL
-- here: the bridge never asks for one.
unfoldable pub to_string : Conversion → ℤ → Lua (Option String)
unfolding index2adr value_at string_at
to_string c idx s = elim (value_at s (index2adr s.stack idx)) [
  | none ↦ fault
  | some v ↦ string_at c (index2adr s.stack idx) v s
]

-- What lua_touserdata gives: the block of a full userdata, or a bare pointer.
pub data Pointer : Type 0 where
  null : Pointer
  block : ℕ → Pointer
  raw : ℕ → Pointer

unfoldable pub pointer_of : Value → Pointer
pointer_of (userdata u) = block u
pointer_of (light_userdata p) = raw p
pointer_of _ = null

unfoldable pub to_userdata : ℤ → Lua Pointer
unfolding value pointer_of
to_userdata idx = do v ← value idx; pure (pointer_of v)
