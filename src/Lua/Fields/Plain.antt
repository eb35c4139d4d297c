-- ===== src/Lua/Fields/Plain.antt =====
-- Access to a table without a metatable: luaV_gettable and luaV_settable read and write its entries.
use sctx.Lua.Access.{is_nil_value}
use sctx.Lua.Fields.{event_of, Calls, get_rounds, set_rounds, get_field, set_field, set_table}
use sctx.Lua.Index.{value}
use sctx.Lua.Reads.{Names}
use sctx.Lua.State.{Value, string, table, Table, State, ok, table_get, table_set, update}
use sctx.Prelude.{ℕ, suc, ℤ, String, ◌≡◌, none, some, List, ◌∷◌, arith}

get_rounds-plain :
    (calls : Calls) (n a : ℕ) (h : Table) (key : Value) (s : State)
    → s.tables a ≡ some h
    → h.metatable ≡ none
    → get_rounds calls (suc n) (table a) key s ≡ ok (table_get h.entries key) s
unfolding get_rounds is_nil_value event_of
get_rounds-plain calls n a h key s here plain = ground arith

set_rounds-plain :
    (calls : Calls) (n a : ℕ) (h : Table) (k : String) (v : Value) (s : State)
    → s.tables a ≡ some h
    → h.metatable ≡ none
    → set_rounds calls (suc n) (table a) (string k) v s
      ≡ ok tt (record s {
        tables = update s.tables a (record h { entries = table_set h.entries (string k) v });
      })
unfolding set_rounds is_nil_value event_of
set_rounds-plain calls n a h k v s here plain = ground arith

module _ (calls : Calls) (s : State) (idx : ℤ) (a : ℕ) (h : Table) (at : Names s idx (table a))
    (here : s.tables a ≡ some h) (plain : h.metatable ≡ none) where
  named : value idx s ≡ ok (table a) s
  unfolding value
  named = ground arith

  -- lua_getfield pushes the entry of the field.
  pub get_field-plain :
      (k : String)
      → get_field calls idx k s
        ≡ ok tt (record s { stack = table_get h.entries (string k) ∷ s.stack })
  unfolding get_field
  get_field-plain k = ground (arith, named, get_rounds-plain calls 99 a h (string k) s here plain)

  -- lua_settable stores the value on top under the key below it, and pops both.
  pub set_table-plain :
      (k : String) (v : Value) (xs : List Value)
      → s.stack ≡ v ∷ string k ∷ xs
      → set_table calls idx s
        ≡ ok tt (record s {
          stack = xs;
          tables = update s.tables a (record h { entries = table_set h.entries (string k) v });
        })
  unfolding set_table
  set_table-plain k v xs e =
      ground (arith, e, named, set_rounds-plain calls 99 a h k v s here plain)

  pub set_field-plain :
      (k : String) (v : Value) (xs : List Value)
      → s.stack ≡ v ∷ xs
      → set_field calls idx k s
        ≡ ok tt (record s {
          stack = xs;
          tables = update s.tables a (record h { entries = table_set h.entries (string k) v });
        })
  unfolding set_field
  set_field-plain k v xs e =
      ground (arith, e, named, set_rounds-plain calls 99 a h k v s here plain)
