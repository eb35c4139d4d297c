-- ===== src/Tests/Print.antt =====
-- A script that prints a text, a number, nil and an object.
use sctx.Context.Runtime.Print.Line.{print-line, all_told}
use sctx.Context.Runtime.Print.{print, text_of_value, line, told, or_type}
use sctx.Lua.Access.{is_userdata_value}
use sctx.Lua.State.{Value, nil, number, string, userdata, State, ok, Lua}
use sctx.Prelude.{String, ℤ, pos, ◌≡◌, refl, Bool, true, Option, some, List, [], ◌∷◌}
use sctx.Tests.States.{conversion, opened}

-- Every object is the text "object".
abbrev object_text : ℤ → Lua (Option String)
object_text i s = ok (some "object") s

abbrev shown : Value → Option String
shown v = some "object"

abbrev every : Value → Bool
every v = true

abbrev args : List Value
args = string "n" ∷ number (pos 7) ∷ nil ∷ userdata 3 ∷ []

abbrev called : State
called = record opened { stack = userdata 3 ∷ nil ∷ number (pos 7) ∷ string "n" ∷ userdata 2 ∷ [] }

print-line_example :
    print conversion object_text called
    ≡ ok "n\tnumber\tnil\tobject\t" (record opened {
      stack = userdata 3 ∷ nil ∷ string "number" ∷ string "n" ∷ userdata 2 ∷ [];
    })
unfolding text_of_value line told or_type all_told is_userdata_value
print-line_example =
    print-line conversion object_text shown every (λ i s v at fine. refl) args (userdata 2) called
      refl refl
