-- ===== src/Bridge/Library.antt =====
-- The functions of the Lua table `luajava` in jni/luajava/luajava.c: bindClass, createProxy, new,
-- newInstance and loadLib.
pub mod Classes
use Prim.Native.String.{◌++◌}
use sctx.Prelude.{String, ℤ, pos, not, ◌&&◌, ◌==◌}
use sctx.Bridge.Index.{non_null, object_of}
use sctx.Bridge.Jni.{Java, new_local, delete_local_ref}
use sctx.Bridge.Objects.{is_java_object, require_env, push_java_class}
use sctx.Bridge.Raise.{raise, state_index, call_java}
use sctx.Lua.Access.{is_table, is_string, to_string, to_userdata}
use sctx.Lua.Heap.{read_block}
use sctx.Lua.Stack.{get_top}
use sctx.Lua.State.{Lua, ◌>>=◌, ◌>>◌, nothing, when}

module _ (java : Java) where
  -- luaL_error, which puts the position of the running code before the message.
  raise_located : {A : Type 0} → String → Lua A
  unfolding raise
  raise_located message s = raise (java.position s ++ message) s

  unfoldable pub bind_class : Lua ℤ
  unfolding get_top raise_located is_string raise to_string non_null new_local delete_local_ref
  bind_class = do
    top ← get_top
    when (not (top == 1)) (
        raise_located (
          "Error. Function javaBindClass received "
          ++ (java.conversion.number2str (pos top) ++ " arguments, expected 1.")))
    require_env
    named ← is_string (pos 1)
    when (not named) (raise "Invalid parameter type. String expected.")
    name ← non_null (← to_string java.conversion (pos 1))
    new_local
    class ← call_java delete_local_ref (java.class_for_name name)
    new_local
    push_java_class class

  unfoldable pub create_proxy : Lua ℤ
  unfolding get_top raise is_string is_table to_string non_null new_local delete_local_ref
  create_proxy = do
    top ← get_top
    when (not (top == 2)) (raise "Error. Function createProxy expects 2 arguments.")
    id ← state_index java
    named ← is_string (pos 1)
    implemented ← is_table (pos 2)
    when (not (named && implemented)) (raise "Invalid Argument types. Expected (string, table).")
    require_env
    impl ← non_null (← to_string java.conversion (pos 1))
    new_local
    call_java delete_local_ref (java.create_proxy_object id impl)

  -- The local reference to java.lang.Class that FindClass gives is never deleted.
  unfoldable pub java_new : Lua ℤ
  unfolding get_top raise new_local to_userdata object_of read_block
  java_new = do
    top ← get_top
    when (top == 0) (raise "Error. Invalid number of parameters.")
    id ← state_index java
    valid ← is_java_object (pos 1)
    when (not valid) (raise "Argument not a valid Java Class.")
    require_env
    new_local
    class ← object_of (← read_block (← to_userdata (pos 1)))
    when (not (java.is_class class)) (raise "Argument not a valid Java Class.")
    call_java nothing (java.java_new id class)

  unfoldable pub java_new_instance : Lua ℤ
  unfolding is_string raise to_string non_null new_local delete_local_ref
  java_new_instance = do
    id ← state_index java
    named ← is_string (pos 1)
    when (not named) (raise "Invalid parameter type. String expected as first parameter.")
    class ← to_string java.conversion (pos 1)
    require_env
    name ← non_null class
    new_local
    call_java delete_local_ref (java.java_new_instance id name)

  unfoldable pub java_load_lib : Lua ℤ
  unfolding get_top raise is_string to_string non_null new_local delete_local_ref
  java_load_lib = do
    top ← get_top
    when (not (top == 2)) (raise "Error. Invalid number of parameters.")
    id ← state_index java
    class_named ← is_string (pos 1)
    method_named ← is_string (pos 2)
    when (not (class_named && method_named)) (raise "Invalid parameter. Strings expected.")
    class ← to_string java.conversion (pos 1)
    method ← to_string java.conversion (pos 2)
    require_env
    class_name ← non_null class
    method_name ← non_null method
    new_local
    new_local
    call_java (delete_local_ref >> delete_local_ref) (java.java_load_lib id class_name method_name)
