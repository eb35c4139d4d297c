-- ===== src/Tests/Lua.antt =====
-- The stack of the small Lua state.
use sctx.Lua.Stack.{insert, set_top}
use sctx.Lua.State.{nil, number, string, State, ok}
use sctx.Prelude.{negsuc, pos, ◌≡◌, refl, [], ◌∷◌}
use sctx.Tests.States.{opened}

abbrev three : State
three = record opened { stack = string "c" ∷ number (pos 2) ∷ nil ∷ [] }

top_inserted :
    insert (negsuc 2) three
    ≡ ok tt (record three { stack = number (pos 2) ∷ nil ∷ string "c" ∷ [] })
unfolding insert
top_inserted = refl

top_grown :
    set_top (pos 4) three
    ≡ ok tt (record three { stack = nil ∷ string "c" ∷ number (pos 2) ∷ nil ∷ [] })
unfolding set_top
top_grown = refl
