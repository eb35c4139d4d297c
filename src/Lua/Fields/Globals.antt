-- ===== src/Lua/Fields/Globals.antt =====
-- Global variables through lua_setglobal and lua_getglobal: what is set is read back, and the other
-- variables keep their values.
use sctx.Lua.Entries.{table_get-table_set}
use sctx.Lua.Fields.{Calls, globals_index, get_field, set_field}
use sctx.Lua.Fields.Plain.{set_field-plain, get_field-plain}
use sctx.Lua.Index.{index2adr, value_at}
use sctx.Lua.State.{Value, string, Table, State, ok, table_get, table_set, update}
use sctx.Prelude.{String, ◌≡◌, refl, none, some, List, ◌∷◌, str_eq, if◌then◌else◌, ==_refl, arith}

module _ (calls : Calls) (s : State) (g : Table) (k : String) (v : Value) (xs : List Value)
    (global : s.tables s.globals ≡ some g) (bare : g.metatable ≡ none)
    (top : s.stack ≡ v ∷ xs) where
  abbrev g' : Table
  g' = record g { entries = table_set g.entries (string k) v }

  abbrev assigned : State
  assigned = record s { stack = xs; tables = update s.tables s.globals g' }

  get_field-assigned :
      (j : String)
      → get_field calls globals_index j assigned
        ≡ ok tt (record assigned { stack = table_get g'.entries (string j) ∷ xs })
  unfolding index2adr value_at
  get_field-assigned j =
      get_field-plain calls assigned globals_index s.globals g' refl (rw ==_refl refl) bare j

  -- Where the globals are a table without a metatable, setting the global `k` to the value on top
  -- succeeds and pops the value; then the global `k` reads as that value, and every global of
  -- another name as it was.
  pub get_field-set_field :
      (j : String)
      → (s' : State) × (set_field calls globals_index k s ≡ ok tt s')
        × (s'.stack ≡ xs)
        × (get_field calls globals_index j s'
            ≡ ok tt (record s' {
              stack = (if str_eq k j then v else table_get g.entries (string j)) ∷ xs;
            }))
  unfolding index2adr value_at
  get_field-set_field j = (
    assigned,
    set_field-plain calls s globals_index s.globals g refl global bare k v xs top,
    refl,
    ground (arith, get_field-assigned j, table_get-table_set g.entries k j v),
  )
