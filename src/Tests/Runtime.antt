-- ===== src/Tests/Runtime.antt =====
-- A code that DemoLuaRuntime runs and that fails.
use sctx.Context.Runtime.{
  Interpreter, is_int, error_reason, reasons, reason_of, run_code, outcome, run_code-outcome,
}
use sctx.Lua.Fields.{Calls}
use sctx.Lua.Index.{index2adr, value_at}
use sctx.Lua.State.{
  Value, nil, string, table, function, other, Table, State, ok, raw_equal, table_get,
}
use sctx.Prelude.{ℕ, pos, negsuc, ◌≡◌, refl, Option, none, some, [], ◌∷◌, ◌==◌, inr, if◌then◌else◌}
use sctx.Tests.States.{conversion, opened}

abbrev calls : Calls
calls = record { result = λ f args s. ok nil s; run = λ f args s. ok tt s }

abbrev traceback : Value
traceback = function 8 (other 1)

-- Table 1 are the globals and table 3 is `debug`.
abbrev tables : ℕ → Option Table
tables a =
    if a == 1
    then some (record { entries = (string "debug", table 3) ∷ []; metatable = none })
    else (if a == 3
        then some (record { entries = (string "traceback", traceback) ∷ []; metatable = none })
        else none)

abbrev start : State
start = record opened { tables = tables }

abbrev loaded : State
loaded = record start { stack = function 9 (other 2) ∷ [] }

abbrev failed : State
failed = record start { stack = string "boom" ∷ traceback ∷ [] }

-- Every text loads as one chunk, which fails.
abbrev interpreter : Interpreter
interpreter = record {
  load_string = λ src s. ok (pos 0) (record s { stack = function 9 (other 2) ∷ [] });
  pcall = λ args results handler s. ok (pos 2) failed;
  int_text = λ n. "number";
}

abbrev before_call : State
before_call = record loaded { stack = function 9 (other 2) ∷ traceback ∷ [] }

run_code-outcome_example :
    (value_at before_call (index2adr before_call.stack (negsuc 1)) ≡ some traceback)
    × (run_code calls conversion interpreter "f()" start
        ≡ ok (some "LUA error: Runtime error: boom") failed)
unfolding table_get raw_equal outcome is_int reasons reason_of
run_code-outcome_example =
    run_code-outcome calls conversion interpreter "f()" start loaded (pos 0) (function 9 (other 2))
      refl refl (record { entries = (string "debug", table 3) ∷ []; metatable = none })
      (record { entries = (string "traceback", traceback) ∷ []; metatable = none }) 3 refl refl refl
      refl refl (pos 2) failed "boom" (traceback ∷ []) refl (inr refl)

-- A text that does not load is not called.
abbrev refusing : Interpreter
refusing = record interpreter {
  load_string = λ src s. ok (pos 3) (record s { stack = string "unexpected symbol" ∷ [] });
}

not_loaded :
    run_code calls conversion refusing "f(" start
    ≡ ok
        (some "LUA error: Syntax error: unexpected symbol")
        (record start { stack = string "unexpected symbol" ∷ [] })
unfolding run_code is_int error_reason table_get raw_equal index2adr value_at
not_loaded = refl
