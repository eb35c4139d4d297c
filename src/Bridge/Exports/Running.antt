-- ===== src/Bridge/Exports/Running.antt =====
-- The native methods of LuaState in jni/luajava/luajava.c that run code, work on threads, and hand
-- one call to a function of Lua that is a parameter here.
use sctx.Prelude.{ℕ, String, ℤ, pos, negsuc, Option, Bool, false, ◌==◌, if◌then◌else◌}
use sctx.Bridge.Exports.{enter}
use sctx.Bridge.Exports.Values.{java_string}
use sctx.Bridge.Jni.{new_local, pin_string, release_string}
use sctx.Lua.Stack.{push_c_function, push_string}
use sctx.Lua.State.{other, Lua, pure, ◌>>=◌, ◌>>◌}

-- The functions of the copy of Lua that these methods call.
pub record Api : Type 0 where
  pub call : ℤ → ℤ → Lua (Unit {0})
  pub pcall : ℤ → ℤ → ℤ → Lua ℤ
  pub yield : ℤ → Lua ℤ
  pub resume : ℤ → Lua ℤ
  pub status : Lua ℤ
  pub gc : ℤ → ℤ → Lua ℤ
  pub next : ℤ → Lua ℤ
  pub concat : ℤ → Lua (Unit {0})
  pub equal : ℤ → ℤ → Lua ℤ
  pub less_than : ℤ → ℤ → Lua ℤ
  pub get_fenv : ℤ → Lua (Unit {0})
  pub set_fenv : ℤ → Lua ℤ
  pub check_stack : ℤ → Lua ℤ
  pub is_c_function : ℤ → Lua ℤ
  pub to_integer : ℤ → Lua ℤ
  pub obj_len : ℤ → Lua ℤ
  pub type_name : ℤ → Lua (Option String)
  pub load_file : String → Lua ℤ
  pub load_string : String → Lua ℤ
  pub open_libs : Lua (Unit {0})
  -- The lua_State of a thread, by its pointer.
  pub new_thread : Lua ℕ
  pub to_thread : ℤ → Lua ℕ
  -- The libraries' functions: base, table, io, os, string, math, debug and package.
  pub open_fn : ℕ → ℕ

-- LUA_GCCOUNT and LUA_MULTRET
abbrev gc_count : ℤ
gc_count = pos 3

abbrev mult_ret : ℤ
mult_ret = negsuc 0

-- A call between GetStringUTFChars and ReleaseStringUTFChars.
unfoldable pub with_text : {A : Type 0} → Lua A → Lua A
unfolding pin_string release_string
with_text m = do pin_string; a ← m; release_string; pure a

-- A new CPtr with a pointer: FindClass and AllocObject make a local reference each.
unfoldable pub new_cptr : ℕ → Lua ℕ
unfolding new_local
new_cptr peer = do new_local; new_local; pure peer

int_is_zero : ℤ → Bool
int_is_zero (pos n) = n == 0
int_is_zero (negsuc n) = false

-- `env` is the caller's JNIEnv, and `self` the pointer in its CPtr.
module _ (api : Api) (env self : ℕ) where
  -- A library: its opening function is called with its name.
  open_library : ℕ → String → Lua (Unit {0})
  unfolding enter push_c_function push_string
  open_library lib name =
      enter env
        do push_c_function (other (api.open_fn lib)); push_string name; api.call (pos 1) (pos 0)

  unfoldable pub open_base : Lua (Unit {0})
  unfolding open_library
  open_base = open_library 0 ""

  unfoldable pub open_table_lib : Lua (Unit {0})
  unfolding open_library
  open_table_lib = open_library 1 "table"

  unfoldable pub open_io : Lua (Unit {0})
  unfolding open_library
  open_io = open_library 2 "io"

  unfoldable pub open_os : Lua (Unit {0})
  unfolding open_library
  open_os = open_library 3 "os"

  unfoldable pub open_string : Lua (Unit {0})
  unfolding open_library
  open_string = open_library 4 "string"

  unfoldable pub open_math : Lua (Unit {0})
  unfolding open_library
  open_math = open_library 5 "math"

  unfoldable pub open_debug : Lua (Unit {0})
  unfolding open_library
  open_debug = open_library 6 "debug"

  unfoldable pub open_package : Lua (Unit {0})
  unfolding open_library
  open_package = open_library 7 "package"

  unfoldable pub open_libs : Lua (Unit {0})
  unfolding enter
  open_libs = enter env api.open_libs

  -- The CPtr gets the pointer of the state itself.
  unfoldable pub newthread : Lua ℕ
  unfolding enter new_cptr
  newthread = enter env do new_thread ← api.new_thread; new_cptr self

  unfoldable pub to_thread : ℤ → Lua ℕ
  unfolding enter new_cptr
  to_thread idx = enter env (api.to_thread idx >>= new_cptr)

  unfoldable pub check_stack : ℤ → Lua ℤ
  unfolding enter
  check_stack sz = enter env (api.check_stack sz)

  unfoldable pub is_c_function : ℤ → Lua ℤ
  unfolding enter
  is_c_function idx = enter env (api.is_c_function idx)

  unfoldable pub typename : ℤ → Lua (Option String)
  unfolding enter java_string
  typename tp = enter env (api.type_name tp >>= java_string env)

  unfoldable pub equal : ℤ → ℤ → Lua ℤ
  unfolding enter
  equal i j = enter env (api.equal i j)

  unfoldable pub lessthan : ℤ → ℤ → Lua ℤ
  unfolding enter
  lessthan i j = enter env (api.less_than i j)

  unfoldable pub to_integer : ℤ → Lua ℤ
  unfolding enter
  to_integer idx = enter env (api.to_integer idx)

  unfoldable pub strlen : ℤ → Lua ℤ
  unfolding enter
  strlen idx = enter env (api.obj_len idx)

  unfoldable pub objlen : ℤ → Lua ℤ
  unfolding enter
  objlen idx = enter env (api.obj_len idx)

  -- The text of the first n bytes of the array.
  unfoldable pub push_bytes : String → Lua (Unit {0})
  unfolding enter with_text push_string
  push_bytes bytes = enter env (with_text (push_string bytes))

  unfoldable pub get_fenv : ℤ → Lua (Unit {0})
  unfolding enter
  get_fenv idx = enter env (api.get_fenv idx)

  unfoldable pub set_fenv : ℤ → Lua ℤ
  unfolding enter
  set_fenv idx = enter env (api.set_fenv idx)

  unfoldable pub call : ℤ → ℤ → Lua (Unit {0})
  unfolding enter
  call n_args n_results = enter env (api.call n_args n_results)

  unfoldable pub pcall : ℤ → ℤ → ℤ → Lua ℤ
  unfolding enter
  pcall n_args n_results err_func = enter env (api.pcall n_args n_results err_func)

  unfoldable pub yield : ℤ → Lua ℤ
  unfolding enter
  yield n_results = enter env (api.yield n_results)

  unfoldable pub resume : ℤ → Lua ℤ
  unfolding enter
  resume n_args = enter env (api.resume n_args)

  unfoldable pub status : Lua ℤ
  unfolding enter
  status = enter env api.status

  unfoldable pub lua_gc : ℤ → ℤ → Lua ℤ
  unfolding enter
  lua_gc what amount = enter env (api.gc what amount)

  unfoldable pub get_gc_count : Lua ℤ
  unfolding enter
  get_gc_count = enter env (api.gc gc_count (pos 0))

  unfoldable pub next : ℤ → Lua ℤ
  unfolding enter
  next idx = enter env (api.next idx)

  unfoldable pub concat : ℤ → Lua (Unit {0})
  unfolding enter
  concat n = enter env (api.concat n)

  -- luaL_dofile and luaL_dostring: 1 where the code could not be loaded or failed.
  run_loaded : ℤ → Lua ℤ
  unfolding int_is_zero
  run_loaded status =
      if int_is_zero status
      then (do
        result ← api.pcall (pos 0) mult_ret (pos 0)
        pure (if int_is_zero result then pos 0 else pos 1))
      else pure (pos 1)

  unfoldable pub do_file : String → Lua ℤ
  unfolding enter with_text run_loaded
  do_file file = enter env (with_text (api.load_file file >>= run_loaded))

  -- The characters of the string are never given back.
  unfoldable pub do_string : String → Lua ℤ
  unfolding enter pin_string run_loaded
  do_string text = enter env do pin_string; api.load_string text >>= run_loaded

  unfoldable pub load_file : String → Lua ℤ
  unfolding enter with_text
  load_file file = enter env (with_text (api.load_file file))

  unfoldable pub load_string : String → Lua ℤ
  unfolding enter with_text
  load_string text = enter env (with_text (api.load_string text))
