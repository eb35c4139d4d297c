-- ===== src/Bridge/Open.antt =====
-- luajava_open of jni/luajava/luajava.c: the id of the state, the Lua table `luajava`, and the Java
-- classes that the bridge keeps in static variables.
pub mod StateId
pub mod Filling
pub mod Library
use sctx.Prelude.{ℕ, String, ℤ, negsuc, not, Option, none, some, List, [], ◌∷◌, ◌==◌, if◌then◌else◌}
use sctx.Bridge.Env.{push_jni_env}
use sctx.Bridge.Jni.{new_global_ref, new_local}
use sctx.Bridge.Raise.{state_index_tag}
use sctx.Lua.Fields.{Calls, set_table, set_field, get_field, globals_index}
use sctx.Lua.Heap.{new_table}
use sctx.Lua.Index.{registry_index}
use sctx.Lua.Stack.{push_string, push_number, push_c_function, pop}
use sctx.Lua.State.{
  CFunction, bind_class_fn, java_new_fn, new_instance_fn, load_lib_fn, create_proxy_fn, State, Run,
  Lua, pure, ◌>>=◌, ◌>>◌, nothing,
}

-- luajava_api_class, java_function_class, throwable_class and java_lang_class, 0 for NULL.
pub record Statics : Type 0 where
  pub api_class : ℕ
  pub function_class : ℕ
  pub throwable_class : ℕ
  pub lang_class : ℕ

-- The entries of set_info, and the functions of the table, in their order.
abbrev pub info : List (String × String)
info =
    ("_COPYRIGHT", "Copyright (C) 2003-2007 Kepler Project")
    ∷ ("_DESCRIPTION", "LuaJava is a script tool for Java")
    ∷ ("_NAME", "LuaJava")
    ∷ ("_VERSION", "1.1")
    ∷ []

abbrev pub library : List (String × CFunction)
library =
    ("bindClass", bind_class_fn)
    ∷ ("new", java_new_fn)
    ∷ ("newInstance", new_instance_fn)
    ∷ ("loadLib", load_lib_fn)
    ∷ ("createProxy", create_proxy_fn)
    ∷ []

-- A class looked up once and kept by a global reference. `none`: it is not found, and the process
-- exits.
unfoldable pub keep_class : (String → ℕ) → String → ℕ → Lua (Option ℕ)
unfolding new_local new_global_ref
keep_class find_class name kept =
    if not (kept == 0)
    then pure (some kept)
    else (if find_class name == 0 then pure none else do
      new_local
      ref ← new_global_ref (find_class name)
      pure (if ref == 0 then none else some ref))

module _ (calls : Calls) where
  unfoldable pub set_text : String × String → Lua (Unit {0})
  unfolding push_string set_table
  set_text entry = do push_string entry.0; push_string entry.1; set_table calls (negsuc 2)

  unfoldable pub set_function : String × CFunction → Lua (Unit {0})
  unfolding push_string push_c_function set_table
  set_function entry = do push_string entry.0; push_c_function entry.1; set_table calls (negsuc 2)

  unfoldable pub set_texts : List (String × String) → Lua (Unit {0})
  unfolding set_text
  set_texts [] = nothing
  set_texts (entry ∷ es) = do set_text entry; set_texts es

  unfoldable pub set_functions : List (String × CFunction) → Lua (Unit {0})
  unfolding set_function
  set_functions [] = nothing
  set_functions (entry ∷ es) = do set_function entry; set_functions es

  unfoldable pub store_state_index : ℤ → Lua (Unit {0})
  unfolding push_string push_number set_table
  store_state_index id = do
    push_string state_index_tag
    push_number id
    set_table calls registry_index

  unfoldable pub open_table : Lua (Unit {0})
  unfolding new_table set_field get_field set_texts set_functions pop
  open_table = do
    new_table
    set_field calls globals_index "luajava"
    get_field calls globals_index "luajava"
    set_texts info
    set_functions library
    pop 1

  module _ (find_class : String → ℕ) where
    -- `rest` where the class was found.
    and_keep : String → ℕ → (ℕ → Lua (Option Statics)) → Lua (Option Statics)
    unfolding keep_class
    and_keep name kept rest =
        keep_class find_class name kept >>= λ o. elim o [ none ↦ pure none | some ref ↦ rest ref ]

    unfoldable pub keep_classes : Statics → Lua (Option Statics)
    unfolding and_keep
    keep_classes st = and_keep "org/keplerproject/luajava/LuaJavaAPI" st.api_class λ api.
        and_keep "org/keplerproject/luajava/JavaFunction" st.function_class λ function.
          and_keep "java/lang/Throwable" st.throwable_class λ throwable.
            and_keep "java/lang/Class" st.lang_class λ lang. pure (
              some (record {
                api_class = api;
                function_class = function;
                throwable_class = throwable;
                lang_class = lang;
              }))

    -- `none` where a class is missing and the process exits.
    unfoldable pub luajava_open : ℕ → ℤ → Statics → Lua (Option Statics)
    unfolding push_jni_env store_state_index open_table keep_classes
    luajava_open env id st = do
      push_jni_env env
      store_state_index id
      open_table
      kept ← keep_classes st
      elim kept [ none ↦ pure none | some st' ↦ (push_jni_env env >> pure (some st')) ]
