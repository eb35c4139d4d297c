-- ===== src/Bridge/Raise.antt =====
-- How jni/luajava/luajava.c raises Lua errors: with a fixed message, or for a Java exception.
pub mod Exceptions
use sctx.Prelude.{String, ℤ, negsuc, pos, Bool, not, Option, none, some}
use sctx.Bridge.Jni.{
  Java, Throwable, Upcall, returned, threw, new_local, delete_local_ref, pin_string, release_string,
}
use sctx.Lua.Access.{is_number, to_number}
use sctx.Lua.Heap.{lua_error, raw_get}
use sctx.Lua.Index.{registry_index}
use sctx.Lua.Stack.{push_string, pop}
use sctx.Lua.State.{State, Run, Lua, pure, ◌>>=◌, ◌>>◌, nothing, when}

-- `lua_pushstring(L, message); lua_error(L);`
unfoldable pub raise : {A : Type 0} → String → Lua A
unfolding push_string lua_error
raise message = do push_string message; lua_error

-- LUAJAVASTATEINDEX
abbrev pub state_index_tag : String
state_index_tag = "LuaJavaStateIndex"

-- "Gets the luaState index": the opening of every handler that calls LuaJavaAPI.
unfoldable pub state_index : Java → Lua ℤ
unfolding push_string raw_get is_number raise to_number pop
state_index java = do
  push_string state_index_tag
  raw_get registry_index
  known ← is_number java.conversion (negsuc 0)
  when (not known) (raise "Impossible to identify luaState id.")
  id ← to_number java.conversion (negsuc 0)
  pop 1
  pure id

-- The string that the handler pushes for an exception: getMessage, or toString where that is null.
message_string : Throwable → Lua String
unfolding new_local
message_string exp = elim exp.message [
  | none ↦ do new_local; pure exp.text
  | some m ↦ do new_local; pure m
]

-- "Handles exception". `release` deletes the strings that the handler made for the call. The local
-- references to the exception and to its message stay.
unfoldable pub handle_exception : {A : Type 0} → Lua (Unit {0}) → Throwable → Lua A
unfolding new_local message_string pin_string push_string release_string lua_error
handle_exception release exp = do
  new_local
  m ← message_string exp
  release
  pin_string
  push_string m
  release_string
  lua_error

-- A call of Java, with what follows it on either path.
unfoldable pub call_java : {A : Type 0} → Lua (Unit {0}) → (State → Upcall A) → Lua A
unfolding handle_exception
call_java release upcall s = elim (upcall s) [
  | returned a s' ↦ (do release; pure a) s'
  | threw exp s' ↦ handle_exception release exp s'
]
