-- ===== src/Bridge/Exports/Values.antt =====
-- The native methods of LuaState in jni/luajava/luajava.c that hand one call to Lua's API: on the
-- stack, on types and on raw table access.
use sctx.Prelude.{ℕ, String, ℤ, pos, negsuc, Bool}
use sctx.Bridge.Exports.{enter}
use sctx.Bridge.Jni.{Java, new_local, pin_string, release_string}
use sctx.Lua.Access
use sctx.Lua.Heap
use sctx.Lua.Stack
use sctx.Lua.State.{Lua, pure, ◌>>=◌, ◌>>◌}
use sctx.Prelude.{Option, none, some}

module _ (env : ℕ) where
  unfoldable pub get_top : Lua ℕ
  unfolding enter Stack.get_top
  get_top = enter env Stack.get_top

  unfoldable pub set_top : ℤ → Lua (Unit {0})
  unfolding enter Stack.set_top
  set_top top = enter env (Stack.set_top top)

  unfoldable pub push_value : ℤ → Lua (Unit {0})
  unfolding enter Stack.push_value
  push_value idx = enter env (Stack.push_value idx)

  unfoldable pub remove : ℤ → Lua (Unit {0})
  unfolding enter Stack.remove
  remove idx = enter env (Stack.remove idx)

  unfoldable pub insert : ℤ → Lua (Unit {0})
  unfolding enter Stack.insert
  insert idx = enter env (Stack.insert idx)

  unfoldable pub replace : ℤ → Lua (Unit {0})
  unfolding enter Stack.replace
  replace idx = enter env (Stack.replace idx)

  unfoldable pub is_number : Java → ℤ → Lua Bool
  unfolding enter Access.is_number
  is_number java idx = enter env (Access.is_number java.conversion idx)

  unfoldable pub is_string : ℤ → Lua Bool
  unfolding enter Access.is_string
  is_string idx = enter env (Access.is_string idx)

  unfoldable pub is_userdata : ℤ → Lua Bool
  unfolding enter Access.is_userdata
  is_userdata idx = enter env (Access.is_userdata idx)

  unfoldable pub is_table : ℤ → Lua Bool
  unfolding enter Access.is_table
  is_table idx = enter env (Access.is_table idx)

  unfoldable pub is_nil : ℤ → Lua Bool
  unfolding enter Access.is_nil
  is_nil idx = enter env (Access.is_nil idx)

  unfoldable pub type : ℤ → Lua ℤ
  unfolding enter Access.type
  type idx = enter env (Access.type idx)

  unfoldable pub to_number : Java → ℤ → Lua ℤ
  unfolding enter Access.to_number
  to_number java idx = enter env (Access.to_number java.conversion idx)

  unfoldable pub to_boolean : ℤ → Lua Bool
  unfolding enter Access.to_boolean
  to_boolean idx = enter env (Access.to_boolean idx)

  -- The Java string of lua_tostring. NewStringUTF of NULL gives null and makes no reference.
  unfoldable pub java_string : Option String → Lua (Option String)
  unfolding new_local
  java_string none = pure none
  java_string (some k) = do new_local; pure (some k)

  unfoldable pub to_string : Java → ℤ → Lua (Option String)
  unfolding enter Access.to_string java_string
  to_string java idx = enter env (Access.to_string java.conversion idx >>= java_string)

  unfoldable pub push_nil : Lua (Unit {0})
  unfolding enter Stack.push_nil
  push_nil = enter env Stack.push_nil

  unfoldable pub push_number : ℤ → Lua (Unit {0})
  unfolding enter Stack.push_number
  push_number n = enter env (Stack.push_number n)

  unfoldable pub push_string : String → Lua (Unit {0})
  unfolding enter pin_string Stack.push_string release_string
  push_string k = enter env do pin_string; Stack.push_string k; release_string

  unfoldable pub push_boolean : Bool → Lua (Unit {0})
  unfolding enter Stack.push_boolean
  push_boolean b = enter env (Stack.push_boolean b)

  unfoldable pub raw_get : ℤ → Lua (Unit {0})
  unfolding enter Heap.raw_get
  raw_get idx = enter env (Heap.raw_get idx)

  unfoldable pub raw_set : ℤ → Lua (Unit {0})
  unfolding enter Heap.raw_set
  raw_set idx = enter env (Heap.raw_set idx)

  unfoldable pub new_table : Lua (Unit {0})
  unfolding enter Heap.new_table
  new_table = enter env Heap.new_table

  unfoldable pub get_meta_table : ℤ → Lua Bool
  unfolding enter Heap.get_metatable
  get_meta_table idx = enter env (Heap.get_metatable idx)

  unfoldable pub set_meta_table : ℤ → Lua Bool
  unfolding enter Heap.set_metatable
  set_meta_table idx = enter env (Heap.set_metatable idx)

  -- lua_error called from Java: it leaves the frames of the Java code by longjmp.
  unfoldable pub lua_error : Lua ℤ
  unfolding enter Heap.lua_error
  lua_error = enter env Heap.lua_error

  -- lua_pop(L, n) is lua_settop(L, -(n) - 1).
  unfoldable pub pop : ℤ → Lua (Unit {0})
  unfolding enter Stack.set_top
  pop (pos n) = enter env (Stack.set_top (negsuc n))
  pop (negsuc k) = enter env (Stack.set_top (pos k))
