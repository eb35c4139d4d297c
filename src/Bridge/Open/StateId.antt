-- ===== src/Bridge/Open/StateId.antt =====
-- The id of the Lua state: luajava_open stores it, and every handler that calls LuaJavaAPI reads it.
use sctx.Bridge.Jni.{Java}
use sctx.Bridge.Open.{store_state_index}
use sctx.Bridge.Raise.{state_index_tag, state_index}
use sctx.Bridge.Raise.Exceptions.{state_index-known}
use sctx.Lua.Entries.{table_get-table_set_self}
use sctx.Lua.Fields.{Calls}
use sctx.Lua.Fields.Plain.{set_table-plain}
use sctx.Lua.Index.{registry_index}
use sctx.Lua.State.{number, string, Table, State, ok, table_set, update}
use sctx.Prelude.{ℤ, ◌≡◌, refl, none, some, ◌∷◌, ==_refl, arith}

abbrev with_id : ℤ → Table → State → State
with_id id t s = record s {
  tables =
      update s.tables s.registry
        (record t { entries = table_set t.entries (string state_index_tag) (number id) });
}

store_state_index-with_id :
    (calls : Calls) (id : ℤ) (s : State) (t : Table)
    → s.tables s.registry ≡ some t
    → t.metatable ≡ none
    → store_state_index calls id s ≡ ok tt (with_id id t s)
unfolding store_state_index
store_state_index-with_id calls id s t registered plain = ground (
  arith,
  set_table-plain calls (record s { stack = number id ∷ string state_index_tag ∷ s.stack })
      registry_index s.registry t refl registered plain state_index_tag (number id) s.stack refl,
)

-- Where the registry is a table without a metatable, luajava_open's store of the id succeeds and
-- keeps the stack, and the opening of the handlers then reads that id and changes nothing.
pub state_index-store_state_index :
    (java : Java) (calls : Calls) (id : ℤ) (s : State) (t : Table)
    → s.tables s.registry ≡ some t
    → t.metatable ≡ none
    → (s' : State) × (store_state_index calls id s ≡ ok tt s')
      × (s'.stack ≡ s.stack)
      × (state_index java s' ≡ ok id s')
state_index-store_state_index java calls id s t registered plain = (
  with_id id t s,
  store_state_index-with_id calls id s t registered plain,
  refl,
  state_index-known java (with_id id t s)
      (record t { entries = table_set t.entries (string state_index_tag) (number id) })
      (rw ==_refl refl) id (table_get-table_set_self t.entries state_index_tag (number id)),
)
