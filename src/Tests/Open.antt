-- ===== src/Tests/Open.antt =====
-- luajava_open on the small state.
use sctx.Bridge.Open.{store_state_index, open_table}
use sctx.Bridge.Open.StateId.{state_index-store_state_index}
use sctx.Bridge.Open.Library.{Offers, open_table-Offers}
use sctx.Bridge.Raise.{state_index_tag, state_index}
use sctx.Lua.Fields.{Calls, globals_index, get_field, set_field}
use sctx.Lua.Fields.Globals.{get_field-set_field}
use sctx.Lua.State.{Value, nil, number, string, table, State, ok}
use sctx.Prelude.{pos, ◌≡◌, refl, some, none, List, [], ◌∷◌}
use sctx.Tests.States.{java, opened}

-- Metamethods that do nothing.
abbrev calls : Calls
calls = record { result = λ f args s. ok nil s; run = λ f args s. ok tt s }

state_index-store_state_index_example :
    (s' : State) × (store_state_index calls (pos 8) opened ≡ ok tt s')
    × (s'.stack ≡ [])
    × (state_index java s' ≡ ok (pos 8) s')
state_index-store_state_index_example =
    state_index-store_state_index java calls (pos 8) opened
      (record { entries = (string state_index_tag, number (pos 7)) ∷ []; metatable = none }) refl
      refl

open_table-Offers_example :
    (s' : State) × (es : List (Value × Value)) × (open_table calls opened ≡ ok tt s')
    × (s'.stack ≡ [])
    × (get_field calls globals_index "luajava" s' ≡ ok tt (record s' { stack = table 2 ∷ [] }))
    × (s'.tables 2 ≡ some (record { entries = es; metatable = none }))
    × Offers 3 es
open_table-Offers_example =
    open_table-Offers calls opened (record { entries = []; metatable = none }) refl refl refl

get_field-set_field_example :
    (s' : State) × (set_field calls globals_index "x"
        (record opened { stack = number (pos 4) ∷ [] })
      ≡ ok tt s')
    × (s'.stack ≡ [])
    × (get_field calls globals_index "x" s' ≡ ok tt (record s' { stack = number (pos 4) ∷ [] }))
get_field-set_field_example =
    get_field-set_field calls (record opened { stack = number (pos 4) ∷ [] })
      (record { entries = []; metatable = none }) "x" (number (pos 4)) [] refl refl refl "x"
