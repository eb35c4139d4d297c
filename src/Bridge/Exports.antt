-- ===== src/Bridge/Exports.antt =====
-- The native methods of org.keplerproject.luajava.LuaState in jni/luajava/luajava.c that work on
-- Java objects. Each first takes the lua_State from its CPtr (getStateFromCPtr), which stores the
-- caller's JNIEnv in the registry.
pub mod Values
pub mod Tables
pub mod Running
pub mod Auxiliary
pub mod Wrapping
use sctx.Prelude.{ℕ, String, ℤ, Bool, true, false, not, if◌then◌else◌}
use sctx.Bridge.Env.{push_jni_env}
use sctx.Bridge.Index.{object_of}
use sctx.Bridge.Jni.{Java, new_global_ref}
use sctx.Bridge.Objects.{call_tag, is_java_object, push_proxy, push_java_object}
use sctx.Lua.Access.{to_userdata}
use sctx.Lua.Heap.{read_block}
use sctx.Lua.State.{java_function_call_fn, Lua, pure, ◌>>=◌, ◌>>◌}

-- A native method's result: a value, or the Java exception that ThrowNew leaves pending.
pub data Outcome (A : Type 0) : Type 0 where
  value : A → Outcome A
  exception : String → Outcome A

-- getStateFromCPtr, and the method's own work.
unfoldable pub enter : {A : Type 0} → ℕ → Lua A → Lua A
unfolding push_jni_env
enter env method = do push_jni_env env; method

-- What getObjectFromUserdata does with the state.
unfoldable pub object_at : ℤ → Lua (Outcome ℕ)
unfolding to_userdata
object_at idx = do
  valid ← is_java_object idx
  if not valid
      then pure (exception "Index is not a java object")
      else do p ← to_userdata idx; obj ← object_of (← read_block p); pure (value obj)

module _ (env : ℕ) where
  unfoldable pub get_object_from_userdata : ℤ → Lua (Outcome ℕ)
  unfolding object_at
  get_object_from_userdata idx = enter env (object_at idx)

  unfoldable pub is_object : ℤ → Lua Bool
  is_object idx = enter env (is_java_object idx)

  unfoldable pub push_object : ℕ → Lua ℤ
  push_object obj = enter env (push_java_object obj)

  unfoldable pub push_java_function : ℕ → Lua (Outcome (Unit {0}))
  unfolding new_global_ref
  push_java_function obj = enter env do
    ref ← new_global_ref obj
    done ← push_proxy call_tag java_function_call_fn ref
    if not done then pure (exception "Index is not a java object") else pure (value tt)

  unfoldable pub is_java_function : Java → ℤ → Lua Bool
  unfolding to_userdata read_block object_of
  is_java_function java idx = enter env do
    valid ← is_java_object idx
    if not valid then pure false else do
      p ← to_userdata idx
      obj ← object_of (← read_block p)
      pure (java.is_java_function obj)
