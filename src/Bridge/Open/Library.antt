-- ===== src/Bridge/Open/Library.antt =====
-- The Lua table `luajava` that luajava_open makes: what it holds, and that Lua finds it.
use sctx.Bridge.Open.Filling.{
  Entries, plain, with_texts, with_functions, Filled, set_texts-Filled, set_functions-Filled,
}
use sctx.Bridge.Open.{info, library, set_texts, set_functions, open_table}
use sctx.Lua.Entries.{table_get-table_set_self}
use sctx.Lua.Fields.{Calls, globals_index, set_field, get_field}
use sctx.Lua.Fields.Plain.{set_field-plain, get_field-plain}
use sctx.Lua.Heap.{new_table}
use sctx.Lua.Stack.{pop, pop_values}
use sctx.Lua.Index.{index2adr, value_at}
use sctx.Lua.State.{
  bind_class_fn, java_new_fn, new_instance_fn, load_lib_fn, create_proxy_fn, Value, string, table,
  function, Table, State, ok, table_get, table_set, update,
}
use sctx.Prelude.{
  ℕ, suc, ◌+◌, ◌≡◌, refl, false, none, some, List, [], ◌∷◌, ◌==◌, ==_refl, ==_iff, sym, subst,
  arith,
}

-- The functions of the table `luajava`; the first has the identity `n`.
pub record Offers (n : ℕ) (es : List (Value × Value)) : Type 0 where
  pub bind_class : table_get es (string "bindClass") ≡ function n bind_class_fn
  pub java_new : table_get es (string "new") ≡ function (n + 1) java_new_fn
  pub new_instance : table_get es (string "newInstance") ≡ function (n + 2) new_instance_fn
  pub load_lib : table_get es (string "loadLib") ≡ function (n + 3) load_lib_fn
  pub create_proxy : table_get es (string "createProxy") ≡ function (n + 4) create_proxy_fn

Offers-library : (n : ℕ) → Offers n (with_functions n library (with_texts info []))
unfolding with_functions with_texts table_set table_get
Offers-library n = record {
  bind_class = refl;
  java_new = ground arith;
  new_instance = ground arith;
  load_lib = ground arith;
  create_proxy = ground arith;
}

module _ (calls : Calls) (s : State) (g : Table) (global : s.tables s.globals ≡ some g)
    (bare : g.metatable ≡ none) (unused : s.tables s.fresh ≡ none) where
  abbrev a : ℕ
  a = s.fresh

  -- The globals with the new table.
  abbrev globals_with : Table
  globals_with = record g { entries = table_set g.entries (string "luajava") (table a) }

  globals-apart : (s.globals == a) ≡ false
  globals-apart = ground (arith, ==_iff s.globals a)

  abbrev made : State
  made = record s {
    stack = table a ∷ s.stack;
    tables = update s.tables a (plain []);
    fresh = suc s.fresh;
  }

  abbrev named : State
  named = record made { tables = update made.tables s.globals globals_with }

  set_field-named :
      set_field calls globals_index "luajava" made ≡ ok tt (record named { stack = s.stack })
  unfolding index2adr value_at
  set_field-named =
      set_field-plain calls made globals_index s.globals g refl (rw (globals-apart, global) refl)
        bare "luajava" (table a) s.stack refl

  get_field-named :
      get_field calls globals_index "luajava" (record named { stack = s.stack }) ≡ ok tt named
  unfolding index2adr value_at
  get_field-named = ground (
    arith,
    get_field-plain calls (record named { stack = s.stack }) globals_index s.globals globals_with
        refl (rw ==_refl refl) bare "luajava",
    table_get-table_set_self g.entries "luajava" (table a),
  )

  made-plain : named.tables a ≡ some (plain [])
  made-plain = ground (arith, globals-apart)

  module _ (s4 s5 : State) (es : Entries) (e4 : set_texts calls info named ≡ ok tt s4)
      (f4 : Filled a (with_texts info []) named s4) (e5 : set_functions calls library s4 ≡ ok tt s5)
      (f5 : Filled a es s4 s5) where
    open_table-popped : open_table calls s ≡ ok tt (record s5 { stack = s.stack })
    unfolding open_table new_table pop pop_values
    open_table-popped = ground (arith, set_field-named, get_field-named, e4, e5, f5.stack, f4.stack)

    globals-kept : s5.tables s5.globals ≡ some globals_with
    globals-kept = ground (
      arith,
      globals-apart,
      f5.globals,
      f4.globals,
      f5.other s.globals,
      f4.other s.globals,
      ==_refl s.globals,
    )

    get_field-popped :
        get_field calls globals_index "luajava" (record s5 { stack = s.stack })
        ≡ ok tt (record s5 { stack = table a ∷ s.stack })
    unfolding index2adr value_at
    get_field-popped = ground (
      arith,
      get_field-plain calls (record s5 { stack = s.stack }) globals_index s5.globals globals_with
          refl globals-kept bare "luajava",
      table_get-table_set_self g.entries "luajava" (table a),
    )

  -- Where the globals are a table without a metatable and the next identity names no table,
  -- luajava_open's work on the table `luajava` succeeds and keeps the stack; then the global
  -- `luajava` reads as that table, and each of the five names in it is bound to its C function.
  pub open_table-Offers :
      (s' : State) × (es : List (Value × Value)) × (open_table calls s ≡ ok tt s')
      × (s'.stack ≡ s.stack)
      × (get_field calls globals_index "luajava" s'
          ≡ ok tt (record s' { stack = table s.fresh ∷ s.stack }))
      × (s'.tables s.fresh ≡ some (record { entries = es; metatable = none }))
      × Offers (suc s.fresh) es
  open_table-Offers =
      let (s4, e4, f4, n4) = set_texts-Filled calls a s.stack info [] named refl made-plain in
      let (s5, e5, f5) =
        set_functions-Filled calls a s.stack library (with_texts info []) s4 f4.stack f4.held in
      (
        record s5 { stack = s.stack },
        with_functions s4.fresh library (with_texts info []),
        open_table-popped s4 s5 _ e4 f4 e5 f5,
        refl,
        get_field-popped s4 s5 _ e4 f4 e5 f5,
        f5.held,
        subst (λ n. Offers (suc a) (with_functions n library (with_texts info []))) (sym n4)
            (Offers-library (suc a)),
      )
