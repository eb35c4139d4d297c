-- ===== src/Context/Runtime/Print.antt =====
-- The function print that DemoLuaRuntime.onCreate gives to scripts: execute of its JavaFunction.
pub mod Line
use Prim.Native.Nat.{◌-◌}
use Prim.Native.String.{◌++◌}
use text.Mathlib.TextLemmas.{append-nil, append_assoc, nil-append}
use sctx.Lua.Access.{
  Conversion, is_userdata_value, type_at, string_at, type, type_tag, to_boolean, to_boolean_value,
  to_string,
}
use sctx.Lua.Fields.{type_name}
use sctx.Lua.Index.{slot, index2adr, value, value_at}
use sctx.Lua.Reads.{Names}
use sctx.Lua.Stack.{get_top}
use sctx.Lua.State.{
  Value, nil, boolean, light_userdata, number, string, table, function, userdata, thread, State, ok,
  Lua, pure, ◌>>=◌,
}
use sctx.Prelude.{
  ◌==◌, ℕ, zero, suc, ◌+◌, ◌≤◌, ◌<◌, leb, String, ℤ, pos, negsuc, ◌≡◌, refl, sym, subst, ap, Bool,
  true, false, ◌&&◌, ◌||◌, not, Option, none, some, List, [], ◌∷◌, map, if◌then◌else◌, arith,
  length, get_elem?, set, str_eq,
}

unfoldable pub or_type : String → Option String → String
or_type stype none = stype
or_type stype (some val) = val

-- luaT_typenames
unfoldable pub type_names : List String
type_names =
    "nil" ∷ "boolean" ∷ "userdata" ∷ "number" ∷ "string" ∷ "table" ∷ "function" ∷ "userdata"
    ∷ "thread" ∷ "proto" ∷ "upval" ∷ []

-- lua_typename, on the types that lua_type gives.
unfoldable pub name_of_type : ℤ → String
unfolding type_names or_type
name_of_type (negsuc n) = "no value"
name_of_type (pos n) = or_type "no value" (get_elem? type_names n)

-- `object_text i` is L.toJavaObject(i) with toString of what it gives, none for null.
module _ (c : Conversion) (object_text : ℤ → Lua (Option String)) where
  -- The value at an index as text, by the name of its type; null where it has none.
  unfoldable pub val_at : ℤ → String → Lua (Option String)
  unfolding to_boolean to_string
  val_at i stype =
      if str_eq stype "userdata"
      then object_text i
      else (if str_eq stype "boolean"
          then (to_boolean i >>= λ b. pure (some (if b then "true" else "false")))
          else to_string c i)

  unfoldable pub text_at : ℤ → Lua String
  unfolding type name_of_type val_at or_type
  text_at i = do
    tag ← type i
    val ← val_at i (name_of_type tag)
    pure (or_type (name_of_type tag) val)

  -- The loop over i from some index on, with what is written so far.
  unfoldable pub print_from : ℕ → ℕ → String → Lua String
  unfolding get_top text_at
  print_from zero i output = pure output
  print_from (suc fuel) i output = do
    top ← get_top
    (if leb i top
        then (text_at (pos i) >>= λ val. print_from fuel (suc i) ((output ++ val) ++ "\t"))
        else pure output)

  -- execute: the line that is logged. Where no text changes the height of the stack, the loop has as
  -- many rounds as the stack has values.
  unfoldable pub print : Lua String
  unfolding print_from get_top
  print s = print_from (length s.stack) 2 "" s

-- An argument as text, where `shown` is the text of an object.
module _ (c : Conversion) (shown : Value → Option String) where
  unfoldable pub text_of_value : Value → String
  unfolding or_type
  text_of_value nil = "nil"
  text_of_value (boolean true) = "true"
  text_of_value (boolean false) = "false"
  text_of_value (light_userdata p) = or_type "userdata" (shown (light_userdata p))
  text_of_value (number n) = c.number2str n
  text_of_value (string k) = k
  text_of_value (table t) = "table"
  text_of_value (function a f) = "function"
  text_of_value (userdata u) = or_type "userdata" (shown (userdata u))
  text_of_value (thread t) = "thread"

  unfoldable pub line : List Value → String
  unfolding text_of_value
  line [] = ""
  line (v ∷ vs) = text_of_value v ++ ("\t" ++ line vs)

-- lua_tolstring makes a number on the stack its text.
unfoldable pub told : Conversion → Value → Value
told c (number n) = string (c.number2str n)
told c v = v

-- The values of a frame, the first at the bottom, put on those under them.
abbrev pub push_all : List Value → List Value → List Value
push_all [] under = under
push_all (v ∷ vs) under = push_all vs (v ∷ under)
