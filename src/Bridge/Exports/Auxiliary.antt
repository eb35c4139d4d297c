-- ===== src/Bridge/Exports/Auxiliary.antt =====
-- The native methods of LuaState in jni/luajava/luajava.c for the auxiliary library of Lua, whose
-- functions are a parameter.
use sctx.Prelude.{ℕ, String, ℤ, Option}
use sctx.Bridge.Exports.{enter}
use sctx.Bridge.Exports.Running.{with_text}
use sctx.Bridge.Exports.Values.{java_string}
use sctx.Lua.Fields
use sctx.Lua.Index.{registry_index}
use sctx.Lua.State.{Lua, ◌>>=◌, nothing}

-- The functions of lauxlib.c that these methods call. A text that is NULL is none.
pub record Auxiliary : Type 0 where
  pub get_metafield : ℤ → String → Lua ℤ
  pub call_meta : ℤ → String → Lua ℤ
  pub type_error : ℤ → String → Lua ℤ
  pub arg_error : ℤ → String → Lua ℤ
  pub check_string : ℤ → Lua (Option String)
  pub opt_string : ℤ → String → Lua (Option String)
  pub check_number : ℤ → Lua ℤ
  pub opt_number : ℤ → ℤ → Lua ℤ
  pub check_integer : ℤ → Lua ℤ
  pub opt_integer : ℤ → ℤ → Lua ℤ
  pub check_stack : ℤ → String → Lua (Unit {0})
  pub check_type : ℤ → ℤ → Lua (Unit {0})
  pub check_any : ℤ → Lua (Unit {0})
  pub new_metatable : String → Lua ℤ
  pub where_is : ℤ → Lua (Unit {0})
  pub ref : ℤ → Lua ℤ
  pub unref : ℤ → ℤ → Lua (Unit {0})
  pub load_buffer : String → String → Lua ℤ
  pub gsub : String → String → String → Lua (Option String)
  pub find_table : ℤ → String → ℤ → Lua (Option String)
  pub obj_len : ℤ → Lua ℤ

module _ (aux : Auxiliary) (env : ℕ) where
  unfoldable pub get_meta_field : ℤ → String → Lua ℤ
  unfolding enter with_text
  get_meta_field obj e = enter env (with_text (aux.get_metafield obj e))

  unfoldable pub call_meta : ℤ → String → Lua ℤ
  unfolding enter with_text
  call_meta obj e = enter env (with_text (aux.call_meta obj e))

  unfoldable pub typerror : ℤ → String → Lua ℤ
  unfolding enter with_text
  typerror n_arg t_name = enter env (with_text (aux.type_error n_arg t_name))

  unfoldable pub arg_error : ℤ → String → Lua ℤ
  unfolding enter with_text
  arg_error num_arg extra_msg = enter env (with_text (aux.arg_error num_arg extra_msg))

  unfoldable pub check_string : ℤ → Lua (Option String)
  unfolding enter java_string
  check_string num_arg = enter env (aux.check_string num_arg >>= java_string env)

  unfoldable pub opt_string : ℤ → String → Lua (Option String)
  unfolding enter with_text java_string
  opt_string num_arg def = enter env (with_text (aux.opt_string num_arg def >>= java_string env))

  unfoldable pub check_number : ℤ → Lua ℤ
  unfolding enter
  check_number num_arg = enter env (aux.check_number num_arg)

  unfoldable pub opt_number : ℤ → ℤ → Lua ℤ
  unfolding enter
  opt_number num_arg def = enter env (aux.opt_number num_arg def)

  unfoldable pub check_integer : ℤ → Lua ℤ
  unfolding enter
  check_integer num_arg = enter env (aux.check_integer num_arg)

  unfoldable pub opt_integer : ℤ → ℤ → Lua ℤ
  unfolding enter
  opt_integer num_arg def = enter env (aux.opt_integer num_arg def)

  unfoldable pub aux_check_stack : ℤ → String → Lua (Unit {0})
  unfolding enter with_text
  aux_check_stack sz msg = enter env (with_text (aux.check_stack sz msg))

  unfoldable pub check_type : ℤ → ℤ → Lua (Unit {0})
  unfolding enter
  check_type n_arg t = enter env (aux.check_type n_arg t)

  unfoldable pub check_any : ℤ → Lua (Unit {0})
  unfolding enter
  check_any n_arg = enter env (aux.check_any n_arg)

  unfoldable pub new_metatable : String → Lua ℤ
  unfolding enter with_text
  new_metatable t_name = enter env (with_text (aux.new_metatable t_name))

  -- luaL_getmetatable(L, n) is lua_getfield(L, LUA_REGISTRYINDEX, n).
  unfoldable pub get_named_metatable : Fields.Calls → String → Lua (Unit {0})
  unfolding enter with_text Fields.get_field
  get_named_metatable calls t_name =
      enter env (with_text (Fields.get_field calls registry_index t_name))

  unfoldable pub where_is : ℤ → Lua (Unit {0})
  unfolding enter
  where_is lvl = enter env (aux.where_is lvl)

  unfoldable pub ref : ℤ → Lua ℤ
  unfolding enter
  ref t = enter env (aux.ref t)

  unfoldable pub un_ref : ℤ → ℤ → Lua (Unit {0})
  unfolding enter
  un_ref t r = enter env (aux.unref t r)

  -- luaL_getn is lua_objlen, and luaL_setn does nothing.
  unfoldable pub get_n : ℤ → Lua ℤ
  unfolding enter
  get_n t = enter env (aux.obj_len t)

  unfoldable pub set_n : ℤ → ℤ → Lua (Unit {0})
  unfolding enter
  set_n t n = enter env nothing

  -- The text is that of the first bytes of the array.
  unfoldable pub load_buffer : String → String → Lua ℤ
  unfolding enter with_text
  load_buffer bytes name = enter env (with_text (with_text (aux.load_buffer bytes name)))

  unfoldable pub gsub : String → String → String → Lua (Option String)
  unfolding enter with_text java_string
  gsub s p r = enter env (with_text (with_text (with_text (aux.gsub s p r))) >>= java_string env)

  unfoldable pub find_table : ℤ → String → ℤ → Lua (Option String)
  unfolding enter with_text java_string
  find_table idx name size =
      enter env (with_text (aux.find_table idx name size) >>= java_string env)
