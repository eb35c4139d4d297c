-- ===== src/Bridge/Exports/Tables.antt =====
-- The native methods of LuaState in jni/luajava/luajava.c for tables with metamethods, global
-- variables, numbered entries and the remaining type tests.
use sctx.Prelude.{ℕ, String, ℤ, Bool}
use sctx.Bridge.Exports.{enter}
use sctx.Bridge.Jni.{pin_string, release_string}
use sctx.Lua.Access
use sctx.Lua.Fields
use sctx.Lua.Heap
use sctx.Lua.State.{Lua, ◌>>◌}

module _ (env : ℕ) where
  -- The work of a method with a Java string: it is pinned around the call. An error in the call
  -- leaves it pinned.
  with_string : Lua (Unit {0}) → Lua (Unit {0})
  unfolding enter pin_string release_string
  with_string call = enter env do pin_string; call; release_string

  module _ (calls : Fields.Calls) where
    unfoldable pub get_table : ℤ → Lua (Unit {0})
    unfolding enter Fields.get_table
    get_table idx = enter env (Fields.get_table calls idx)

    unfoldable pub set_table : ℤ → Lua (Unit {0})
    unfolding enter Fields.set_table
    set_table idx = enter env (Fields.set_table calls idx)

    unfoldable pub get_field : ℤ → String → Lua (Unit {0})
    unfolding with_string Fields.get_field
    get_field idx k = with_string (Fields.get_field calls idx k)

    unfoldable pub set_field : ℤ → String → Lua (Unit {0})
    unfolding with_string Fields.set_field
    set_field idx k = with_string (Fields.set_field calls idx k)

    unfoldable pub get_global : String → Lua (Unit {0})
    unfolding with_string Fields.get_field
    get_global name = with_string (Fields.get_field calls Fields.globals_index name)

    unfoldable pub set_global : String → Lua (Unit {0})
    unfolding with_string Fields.set_field
    set_global name = with_string (Fields.set_field calls Fields.globals_index name)

  unfoldable pub raw_get_i : ℤ → ℤ → Lua (Unit {0})
  unfolding enter Heap.raw_get_i
  raw_get_i idx n = enter env (Heap.raw_get_i idx n)

  unfoldable pub raw_set_i : ℤ → ℤ → Lua (Unit {0})
  unfolding enter Heap.raw_set_i
  raw_set_i idx n = enter env (Heap.raw_set_i idx n)

  -- The sizes are hints for memory.
  unfoldable pub create_table : ℤ → ℤ → Lua (Unit {0})
  unfolding enter Heap.new_table
  create_table narr nrec = enter env Heap.new_table

  unfoldable pub is_function : ℤ → Lua Bool
  unfolding enter Access.is_function
  is_function idx = enter env (Access.is_function idx)

  unfoldable pub is_boolean : ℤ → Lua Bool
  unfolding enter Access.is_boolean
  is_boolean idx = enter env (Access.is_boolean idx)

  unfoldable pub is_none : ℤ → Lua Bool
  unfolding enter Access.is_none
  is_none idx = enter env (Access.is_none idx)

  unfoldable pub is_none_or_nil : ℤ → Lua Bool
  unfolding enter Access.is_none_or_nil
  is_none_or_nil idx = enter env (Access.is_none_or_nil idx)

  unfoldable pub rawequal : ℤ → ℤ → Lua Bool
  unfolding enter Access.rawequal
  rawequal i j = enter env (Access.rawequal i j)
