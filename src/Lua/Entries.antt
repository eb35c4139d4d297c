-- ===== src/Lua/Entries.antt =====
-- The entries of a table under text keys: what luaH_set writes and luaH_get then reads.
use sctx.Lua.State.{
  Value, nil, boolean, light_userdata, number, string, table, function, userdata, thread, table_get,
  table_set,
}
use sctx.Prelude.{String, ◌≡◌, refl, List, [], ◌∷◌, arith, str_eq, eq_iff, eq_refl, if◌then◌else◌}

-- A write under a text key changes what that key reads, and no other text.
pub table_get-table_set :
    (m : List (Value × Value)) (k j : String) (v : Value)
    → table_get (table_set m (string k) v) (string j)
      ≡ (if str_eq k j then v else table_get m (string j))
unfolding table_get table_set
table_get-table_set [] k j v = refl
table_get-table_set ((string i, w) ∷ m) k j v =
    ground (arith, eq_iff k j, eq_iff i k, eq_iff i j, table_get-table_set m k j v)
table_get-table_set ((nil, w) ∷ m) k j v = table_get-table_set m k j v
table_get-table_set ((boolean b, w) ∷ m) k j v = table_get-table_set m k j v
table_get-table_set ((light_userdata p, w) ∷ m) k j v = table_get-table_set m k j v
table_get-table_set ((number n, w) ∷ m) k j v = table_get-table_set m k j v
table_get-table_set ((table t, w) ∷ m) k j v = table_get-table_set m k j v
table_get-table_set ((function c f, w) ∷ m) k j v = table_get-table_set m k j v
table_get-table_set ((userdata u, w) ∷ m) k j v = table_get-table_set m k j v
table_get-table_set ((thread t, w) ∷ m) k j v = table_get-table_set m k j v

pub table_get-table_set_self :
    (m : List (Value × Value)) (k : String) (v : Value)
    → table_get (table_set m (string k) v) (string k) ≡ v
table_get-table_set_self m k v = rw (table_get-table_set, eq_refl)
