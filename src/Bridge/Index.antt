-- ===== src/Bridge/Index.antt =====
-- The metamethods of the proxies in jni/luajava/luajava.c: objectIndex, objectIndexReturn,
-- classIndex and luaJavaFunctionCall.
use sctx.Prelude.{
  ℕ, String, ℤ, pos, negsuc, Bool, false, not, Option, none, some, ◌==◌, if◌then◌else◌,
}
use sctx.Bridge.Jni.{Java, deref, new_local, delete_local_ref}
use sctx.Bridge.Objects.{object_ind, is_java_object, require_env}
use sctx.Bridge.Raise.{raise, state_index, call_java}
use sctx.Lua.Access.{
  is_string_value, is_nil_value, is_nil, is_table, is_string, to_string, to_userdata,
}
use sctx.Lua.Heap.{raw_get, raw_set, read_block, get_metatable}
use sctx.Lua.Stack.{push_string, push_c_function, pop}
use sctx.Lua.State.{object_index_return_fn, ok, fault, Lua, pure, ◌>>=◌, ◌>>◌, nothing, when}

-- LUAJAVAOBJFUNCCALLED
abbrev pub function_called : String
function_called = "__FunctionCalled"

-- A string of the C code that is NULL where NewStringUTF or lua_pushstring reads it.
unfoldable pub non_null : Option String → Lua String
non_null none s = fault
non_null (some k) s = ok k s

-- The object of a reference that the bridge passes to Java; NULL stays NULL.
unfoldable pub object_of : ℕ → Lua ℕ
unfolding deref
object_of ref s =
    if ref == 0 then ok 0 s else elim (deref s.jvm.globals ref) [ none ↦ fault | some o ↦ ok o s ]

unfoldable pub is_zero : ℤ → Bool
is_zero (pos n) = n == 0
is_zero (negsuc n) = false

is_two : ℤ → Bool
is_two (pos n) = n == 2
is_two (negsuc n) = false

-- Under the metatable on top: the name of the method that objectIndexReturn is to call goes into
-- the metatable, and the function is pushed in its place.
unfoldable pub remember_method : String → Lua ℤ
unfolding push_string raw_set pop push_c_function
remember_method name = do
  push_string function_called
  push_string name
  raw_set (negsuc 2)
  pop 1
  push_c_function object_index_return_fn
  pure (pos 1)

-- objectIndex after checkField: a field's values are on the stack, and their number is the answer;
-- else the key is taken for a method.
unfoldable pub after_check : String → ℤ → Lua ℤ
unfolding is_zero get_metatable is_table raise remember_method
after_check name check = if not (is_zero check) then pure check else do
  get_metatable (pos 1)
  metatable ← is_table (negsuc 0)
  when (not metatable) (raise "Invalid MetaTable.")
  remember_method name

-- classIndex after LuaJavaAPI.classIndex: 0 for no such name, 2 for a method.
unfoldable pub after_class_index : String → ℤ → Lua ℤ
unfolding is_zero is_two get_metatable raise remember_method
after_class_index name ret = do
  when (is_zero ret) (raise "Name is not a static field or function.")
  if not (is_two ret) then pure ret else (do get_metatable (pos 1); remember_method name)

module _ (java : Java) where
  unfoldable pub object_index : Lua ℤ
  unfolding is_string_value is_nil_value raise new_local non_null
  object_index = do
    id ← state_index java
    named ← is_string (negsuc 0)
    when (not named) (raise "Invalid Function call.")
    key ← to_string java.conversion (negsuc 0)
    valid ← is_java_object (pos 1)
    when (not valid) (raise "Not a valid Java Object.")
    require_env
    p ← to_userdata (pos 1)
    name ← non_null key
    new_local
    obj ← object_of (← read_block p)
    check ← call_java delete_local_ref (java.check_field id obj name)
    after_check name check

  -- "Gets the method Name", with the checks of the metatable before it.
  unfoldable pub called_name : Lua (Option String)
  unfolding get_metatable is_nil raise push_string raw_get to_string pop
  called_name = do
    get_metatable (pos 1)
    no_metatable ← is_nil (negsuc 0)
    when no_metatable (raise "Not a valid java Object.")
    push_string object_ind
    raw_get (negsuc 1)
    unmarked ← is_nil (negsuc 0)
    when unmarked (raise "Not a valid java Object.")
    pop 1
    push_string function_called
    raw_get (negsuc 1)
    no_name ← is_nil (negsuc 0)
    when no_name (raise "Not a OO function call.")
    method ← to_string java.conversion (negsuc 0)
    pop 2
    pure method

  unfoldable pub object_index_return : Lua ℤ
  unfolding raise new_local non_null
  object_index_return = do
    id ← state_index java
    valid ← is_java_object (pos 1)
    when (not valid) (raise "Not a valid OO function call.")
    method ← called_name
    p ← to_userdata (pos 1)
    require_env
    name ← non_null method
    new_local
    obj ← object_of (← read_block p)
    call_java delete_local_ref (java.object_index id obj name)

  unfoldable pub class_index : Lua ℤ
  unfolding is_string_value raise new_local non_null
  class_index = do
    id ← state_index java
    valid ← is_java_object (pos 1)
    when (not valid) (raise "Not a valid java class.")
    named ← is_string (pos 2)
    when (not named) (raise "Not a valid field call.")
    field ← to_string java.conversion (pos 2)
    p ← to_userdata (pos 1)
    require_env
    name ← non_null field
    new_local
    obj ← object_of (← read_block p)
    ret ← call_java delete_local_ref (java.class_index id obj name)
    after_class_index name ret

  -- luaJavaFunctionCall. An object that is no JavaFunction is reported on stderr, and the call
  -- gives no value.
  unfoldable pub java_function_call : Lua ℤ
  unfolding raise
  java_function_call = do
    valid ← is_java_object (pos 1)
    when (not valid) (raise "Not a java Function.")
    p ← to_userdata (pos 1)
    require_env
    obj ← object_of (← read_block p)
    if not (java.is_java_function obj) then pure (pos 0) else call_java nothing (java.execute obj)
