-- ===== src/Bridge/Objects.antt =====
-- Java objects as Lua userdata: pushJavaObject, pushJavaClass, isJavaObject and gc of
-- jni/luajava/luajava.c.
pub mod Marks
pub mod Proxies
use sctx.Prelude.{ℕ, String, ℤ, pos, negsuc, Bool, true, false, not, ◌==◌, ◌∷◌, if◌then◌else◌}
use sctx.Bridge.Env.{get_env_from_state}
use sctx.Bridge.Raise.{raise}
use sctx.Bridge.Jni.{new_global_ref, delete_global_ref}
use sctx.Lua.Access.{is_nil, is_userdata, to_userdata, block}
use sctx.Lua.Heap.{
  lua_error, raw_get, raw_set, new_table, new_userdata, write_block, read_block, get_metatable,
  set_metatable,
}
use sctx.Lua.Stack.{push_string, push_boolean, push_c_function, pop}
use sctx.Lua.State.{
  CFunction, object_index_fn, class_index_fn, gc_fn, Value, State, Run, Lua, pure, ◌>>=◌, ◌>>◌,
}

-- LUAJAVAOBJECTIND, LUAINDEXMETAMETHODTAG, LUAGCMETAMETHODTAG
abbrev pub object_ind : String
object_ind = "__IsJavaObject"

abbrev pub index_tag : String
index_tag = "__index"

abbrev pub gc_tag : String
gc_tag = "__gc"

-- LUACALLMETAMETHODTAG
abbrev pub call_tag : String
call_tag = "__call"

-- isJavaObject: a userdata whose metatable has the mark.
unfoldable pub is_java_object : ℤ → Lua Bool
unfolding is_userdata get_metatable push_string raw_get is_nil pop
is_java_object idx = do
  a_userdata ← is_userdata idx
  if not a_userdata then pure false else do
    has_metatable ← get_metatable idx
    if not has_metatable then pure false else do
      push_string object_ind
      raw_get (negsuc 1)
      unmarked ← is_nil (negsuc 0)
      if unmarked then (do pop 2; pure false) else do pop 2; pure true

-- The userdata for a reference, with its metatable: the common part of pushJavaObject,
-- pushJavaClass and pushJavaFunction. The answer is lua_setmetatable's.
unfoldable pub push_proxy : String → CFunction → ℕ → Lua Bool
unfolding new_userdata write_block new_table push_string push_c_function raw_set push_boolean
    set_metatable
push_proxy tag handler ref = do
  u ← new_userdata
  write_block (block u) ref
  new_table
  push_string tag
  push_c_function handler
  raw_set (negsuc 2)
  push_string gc_tag
  push_c_function gc_fn
  raw_set (negsuc 2)
  push_string object_ind
  push_boolean true
  raw_set (negsuc 2)
  set_metatable (negsuc 1)

-- getEnvFromState, and the error that every caller raises where there is no environment.
unfoldable pub require_env : Lua ℕ
unfolding get_env_from_state raise
require_env = do
  env ← get_env_from_state
  if env == 0 then raise "Invalid JNI Environment." else pure env

unfoldable pub push_java_object : ℕ → Lua ℤ
unfolding new_global_ref raise
push_java_object obj = do
  require_env
  ref ← new_global_ref obj
  done ← push_proxy index_tag object_index_fn ref
  if not done then raise "Cannot create proxy to java object." else pure (pos 1)

unfoldable pub push_java_class : ℕ → Lua ℤ
unfolding new_global_ref raise
push_java_class obj = do
  require_env
  ref ← new_global_ref obj
  done ← push_proxy index_tag class_index_fn ref
  if not done then raise "Cannot create proxy to java class." else pure (pos 1)

-- The metamethod __gc of all three.
unfoldable pub gc : Lua ℤ
unfolding delete_global_ref
gc = do
  mine ← is_java_object (pos 1)
  if not mine then pure (pos 0) else do
    obj ← to_userdata (pos 1)
    require_env
    ref ← read_block obj
    delete_global_ref ref
    pure (pos 0)
