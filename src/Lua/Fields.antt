-- ===== src/Lua/Fields.antt =====
-- Table access with metamethods: luaV_gettable and luaV_settable of jni/lua/lvm.c, and the functions
-- of jni/lua/lapi.c and the macros of lua.h that end in them. They run as in a C function, where
-- lua_error messages have no position and name no variable.
pub mod Plain
pub mod Globals
use Prim.Native.String.{◌++◌}
use sctx.Prelude.{ℕ, zero, suc, String, ℤ, negsuc, Option, none, some, List, [], ◌∷◌, if◌then◌else◌}
use sctx.Lua.Access.{is_nil_value}
use sctx.Lua.Heap.{lua_error, metatable_of}
use sctx.Lua.Index.{value}
use sctx.Lua.Stack.{push, push_string, pop}
use sctx.Lua.State.{
  Value, nil, boolean, light_userdata, number, string, table, function, userdata, thread, Table,
  State, Run, ok, fault, Lua, pure, ◌>>=◌, ◌>>◌, table_get, table_set, update,
}

-- luaD_call of a metamethod, with one result or none.
pub record Calls : Type 0 where
  pub result : Value → List Value → Lua Value
  pub run : Value → List Value → Lua (Unit {0})

-- luaT_typenames
unfoldable pub type_name : Value → String
type_name nil = "nil"
type_name (boolean b) = "boolean"
type_name (light_userdata p) = "userdata"
type_name (number n) = "number"
type_name (string k) = "string"
type_name (table t) = "table"
type_name (function c f) = "function"
type_name (userdata u) = "userdata"
type_name (thread t) = "thread"

-- luaG_runerror
run_error : {A : Type 0} → String → Lua A
unfolding push_string lua_error
run_error message = do push_string message; lua_error

abbrev pub index_event : String
index_event = "__index"

abbrev pub newindex_event : String
newindex_event = "__newindex"

-- fasttm and luaT_gettmbyobj: the metamethod in a metatable, nil for none.
unfoldable pub event_of : State → Option ℕ → String → Value
unfolding table_get
event_of s none event = nil
event_of s (some m) event = elim (s.tables m) [
  | none ↦ nil
  | some t ↦ table_get t.entries (string event)
]

-- What an access that did not end at a table or value does with the metamethod.
unfoldable pub follow : {A : Type 0} → (Value → Lua A) → (Value → Lua A) → Value → Lua A
follow call again (function c f) = call (function c f)
follow call again tm = again tm

-- luaV_gettable, with the rounds that are left of MAXTAGLOOP.
unfoldable pub get_rounds : Calls → ℕ → Value → Value → Lua Value
unfolding table_get is_nil_value event_of follow run_error type_name metatable_of
get_rounds calls zero t key s = run_error "loop in gettable" s
get_rounds calls (suc n) (table a) key s =
    let again : Value → Lua Value = λ tm. get_rounds calls n tm key in
    elim (s.tables a) [
      | none ↦ fault
      | some h ↦
          let res = table_get h.entries key in
          let tm = event_of s h.metatable index_event in
          if is_nil_value res
          then (if is_nil_value tm
              then ok nil s
              else follow (λ f. calls.result f (table a ∷ key ∷ [])) again tm s)
          else ok res s
    ]
get_rounds calls (suc n) t key s =
    let again : Value → Lua Value = λ tm. get_rounds calls n tm key in
    let tm = event_of s (metatable_of s t) index_event in
    if is_nil_value tm
    then run_error ("attempt to index a " ++ (type_name t ++ " value")) s
    else follow (λ f. calls.result f (t ∷ key ∷ [])) again tm s

-- luaV_settable, with the rounds that are left of MAXTAGLOOP.
unfoldable pub set_rounds : Calls → ℕ → Value → Value → Value → Lua (Unit {0})
unfolding table_get table_set is_nil_value event_of follow run_error type_name metatable_of
set_rounds calls zero t key val s = run_error "loop in settable" s
set_rounds calls (suc n) (table a) key val s =
    let again : Value → Lua (Unit {0}) = λ tm. set_rounds calls n tm key val in
    if is_nil_value key then run_error "table index is nil" s else elim (s.tables a) [
      | none ↦ fault
      | some h ↦
          let tm = event_of s h.metatable newindex_event in
          let stored = ok tt (record s {
            tables = update s.tables a (record h { entries = table_set h.entries key val });
          }) in
          if is_nil_value (table_get h.entries key)
          then (if is_nil_value tm
              then stored
              else follow (λ f. calls.run f (table a ∷ key ∷ val ∷ [])) again tm s)
          else stored
    ]
set_rounds calls (suc n) t key val s =
    let again : Value → Lua (Unit {0}) = λ tm. set_rounds calls n tm key val in
    let tm = event_of s (metatable_of s t) newindex_event in
    if is_nil_value tm
    then run_error ("attempt to index a " ++ (type_name t ++ " value")) s
    else follow (λ f. calls.run f (t ∷ key ∷ val ∷ [])) again tm s

-- MAXTAGLOOP
abbrev pub max_tag_loop : ℕ
max_tag_loop = 100

top_value : Lua Value
unfolding value
top_value = value (negsuc 0)

module _ (calls : Calls) where
  unfoldable pub get_table : ℤ → Lua (Unit {0})
  unfolding value top_value pop push
  get_table idx = do
    t ← value idx
    key ← top_value
    v ← get_rounds calls max_tag_loop t key
    pop 1
    push v

  unfoldable pub get_field : ℤ → String → Lua (Unit {0})
  unfolding value push
  get_field idx k = do t ← value idx; v ← get_rounds calls max_tag_loop t (string k); push v

  unfoldable pub set_table : ℤ → Lua (Unit {0})
  unfolding value top_value pop
  set_table idx = do
    t ← value idx
    key ← value (negsuc 1)
    val ← top_value
    set_rounds calls max_tag_loop t key val
    pop 2

  unfoldable pub set_field : ℤ → String → Lua (Unit {0})
  unfolding value top_value pop
  set_field idx k = do
    t ← value idx
    val ← top_value
    set_rounds calls max_tag_loop t (string k) val
    pop 1

-- LUA_GLOBALSINDEX, for lua_setglobal and lua_getglobal.
abbrev pub globals_index : ℤ
globals_index = negsuc 10001
