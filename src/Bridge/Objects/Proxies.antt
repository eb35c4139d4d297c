-- ===== src/Bridge/Objects/Proxies.antt =====
-- The proxies that pushJavaObject and its siblings in jni/luajava/luajava.c make.
use sctx.Bridge.Objects.{object_ind, gc_tag, push_proxy}
use sctx.Bridge.Objects.Marks.{HasTable, marked}
use sctx.Lua.Access.{block}
use sctx.Lua.Entries.{table_get-table_set_self}
use sctx.Lua.Heap.{metatable_of, read_block}
use sctx.Lua.State.{
  CFunction, gc_fn, Value, boolean, string, function, userdata, Table, State, ok, table_set,
  table_get, update,
}
use sctx.Prelude.{ℕ, suc, String, ◌≡◌, refl, true, none, some, [], List, ◌∷◌, arith}

-- The entries of a proxy's metatable after one, two and three stores. Its closures are the objects
-- `f` and `suc f`.
entries_1 : String → CFunction → ℕ → List (Value × Value)
entries_1 tag handler f = table_set [] (string tag) (function f handler)

entries_2 : String → CFunction → ℕ → List (Value × Value)
unfolding entries_1
entries_2 tag handler f =
    table_set (entries_1 tag handler f) (string gc_tag) (function (suc f) gc_fn)

entries_3 : String → CFunction → ℕ → List (Value × Value)
unfolding entries_2
entries_3 tag handler f = table_set (entries_2 tag handler f) (string object_ind) (boolean true)

abbrev bare : List (Value × Value) → Table
bare entries = record { entries = entries; metatable = none }

-- The state that push_proxy leaves.
unfoldable pub proxied : String → CFunction → ℕ → State → State
unfolding entries_3
proxied tag handler ref s =
    let u = s.fresh in
    let m = suc u in
    let f = suc m in
    record s {
      stack = userdata u ∷ s.stack;
      tables =
          update
            (update (update (update s.tables m (bare [])) m (bare (entries_1 tag handler f))) m
              (bare (entries_2 tag handler f)))
            m (bare (entries_3 tag handler f));
      blocks =
          update
            (update (update s.blocks u (record { content = 0; metatable = none })) u
              (record { content = ref; metatable = none }))
            u (record { content = ref; metatable = some m });
      fresh = suc (suc f);
    }

pub push_proxy-proxied :
    (tag : String) (handler : CFunction) (ref : ℕ) (s : State)
    → push_proxy tag handler ref s ≡ ok true (proxied tag handler ref s)
unfolding push_proxy proxied
push_proxy-proxied tag handler ref s = ground arith

mark-entries_3 :
    (tag : String) (handler : CFunction) (f : ℕ)
    → table_get (entries_3 tag handler f) (string object_ind) ≡ boolean true
unfolding entries_3
mark-entries_3 tag handler f =
    table_get-table_set_self (entries_2 tag handler f) object_ind (boolean true)

module _ (tag : String) (handler : CFunction) (ref : ℕ) (s : State) where
  metatable_of-proxied :
      metatable_of (proxied tag handler ref s) (userdata s.fresh) ≡ some (suc s.fresh)
  unfolding metatable_of proxied
  metatable_of-proxied = ground arith

  tables-proxied :
      (proxied tag handler ref s).tables (suc s.fresh)
      ≡ some (bare (entries_3 tag handler (suc (suc s.fresh))))
  unfolding proxied
  tables-proxied = ground arith

  -- The new userdata is marked, through a metatable that is there.
  pub marked-proxied : marked (proxied tag handler ref s) (userdata s.fresh) ≡ true
  unfolding marked
  marked-proxied =
      rw (metatable_of-proxied, tables-proxied, mark-entries_3 tag handler (suc (suc s.fresh))) refl

  pub HasTable-proxied : HasTable (proxied tag handler ref s) (userdata s.fresh)
  HasTable-proxied m e = (
    bare (entries_3 tag handler (suc (suc s.fresh))),
    ground (arith, metatable_of-proxied, tables-proxied),
  )

  pub read_block-proxied :
      read_block (block s.fresh) (proxied tag handler ref s) ≡ ok ref (proxied tag handler ref s)
  unfolding proxied read_block
  read_block-proxied = ground arith
