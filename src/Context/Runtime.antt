-- ===== src/Context/Runtime.antt =====
-- queueLuaCode of DemoLuaRuntime: the runnable that it posts, which runs a code in the Lua state.
pub mod Ring
pub mod Print
use Prim.Native.String.{◌++◌}
use sctx.Context.Smart.Files.{text_of}
use sctx.Lua.Access.{Conversion, to_string}
use sctx.Lua.Fields.{Calls, globals_index, get_field}
use sctx.Lua.Fields.Plain.{get_field-plain}
use sctx.Lua.Index.{index2adr, value_at}
use sctx.Lua.Stack.{pop_values, resize_stack, set_top, remove, insert}
use sctx.Lua.State.{Value, table, string, Table, State, Run, ok, Lua, pure, ◌>>=◌, ◌>>◌, table_get}
use sctx.Prelude.{
  ◌==◌, ◌⊎◌, inl, sym, subst, ap, ◌∙◌, zero, suc, get_elem?, inr, Bool-cases, ℕ, String, ℤ, pos,
  negsuc, ◌≡◌, refl, Bool, true, false, Option, none, some, List, [], ◌∷◌, if◌then◌else◌, arith,
  length,
}

-- Of the interpreter: luaL_loadstring and lua_pcall with their status, and an int as Java writes it.
pub record Interpreter : Type 0 where
  pub load_string : String → Lua ℤ
  pub pcall : ℤ → ℤ → ℤ → Lua ℤ
  pub int_text : ℤ → String

unfoldable pub is_int : ℕ → ℤ → Bool
is_int k (pos n) = n == k
is_int k (negsuc n) = false

pop_all : (xs : List Value) → pop_values (length xs) xs ≡ some []
unfolding pop_values
pop_all [] = refl
pop_all (x ∷ xs) = pop_all xs

emptied : (s : State) → set_top (pos 0) s ≡ ok tt (record s { stack = [] })
unfolding set_top resize_stack
emptied s = ground (arith, pop_all s.stack)

module _ (calls : Calls) (c : Conversion) (lua : Interpreter) where
  -- errorReason
  unfoldable pub error_reason : ℤ → String
  unfolding is_int
  error_reason n =
      if is_int 4 n
      then "Out of memory"
      else (if is_int 3 n
          then "Syntax error"
          else (if is_int 2 n
              then "Runtime error"
              else (if is_int 1 n then "Yield error" else "Unknown error " ++ lua.int_text n)))

  -- What is logged of a code that failed.
  unfoldable pub log_error : ℤ → Lua (Option String)
  unfolding error_reason to_string
  log_error status = do
    text ← to_string c (negsuc 0)
    pure (some ("LUA error: " ++ (error_reason status ++ (": " ++ text_of text))))

  unfoldable pub finish : ℤ → Lua (Option String)
  unfolding is_int log_error
  finish status = if is_int 0 status then pure none else log_error status

  -- The code that is loaded is called with debug.traceback as the handler of its errors.
  unfoldable pub call_traced : Lua ℤ
  unfolding get_field remove insert
  call_traced = do
    get_field calls globals_index "debug"
    get_field calls (negsuc 0) "traceback"
    remove (negsuc 1)
    insert (negsuc 1)
    lua.pcall (pos 0) (pos 0) (negsuc 1)

  -- The runnable of queueLuaCode. The text is what it logs.
  unfoldable pub run_code : String → Lua (Option String)
  unfolding set_top call_traced finish log_error is_int
  run_code src = do
    set_top (pos 0)
    status ← lua.load_string src
    if is_int 0 status then (call_traced >>= finish) else log_error status

  module _ (s : State) (g d : Table) (a : ℕ) (global : s.tables s.globals ≡ some g)
      (bare : g.metatable ≡ none) (has_debug : table_get g.entries (string "debug") ≡ table a)
      (debug : s.tables a ≡ some d) (bare_debug : d.metatable ≡ none) where
    abbrev traceback : Value
    traceback = table_get d.entries (string "traceback")

    fetch_debug :
        (chunk : Value)
        → s.stack ≡ chunk ∷ []
        → get_field calls globals_index "debug" s
          ≡ ok tt (record s { stack = table a ∷ chunk ∷ [] })
    unfolding index2adr value_at
    fetch_debug chunk top = ground (
      arith,
      get_field-plain calls s globals_index s.globals g refl global bare "debug",
      has_debug,
      top,
    )

    abbrev fetched : Value → State
    fetched chunk = record s { stack = table a ∷ chunk ∷ [] }

    fetch_traceback :
        (chunk : Value)
        → get_field calls (negsuc 0) "traceback" (fetched chunk)
          ≡ ok tt (record s { stack = traceback ∷ table a ∷ chunk ∷ [] })
    unfolding index2adr value_at
    fetch_traceback chunk =
        get_field-plain calls (fetched chunk) (negsuc 0) a d refl debug bare_debug "traceback"

    call_traced-pcall :
        (chunk : Value)
        → s.stack ≡ chunk ∷ []
        → call_traced s
          ≡ lua.pcall (pos 0) (pos 0) (negsuc 1) (record s { stack = chunk ∷ traceback ∷ [] })
    unfolding call_traced remove insert index2adr
    call_traced-pcall chunk top = rw (fetch_debug chunk top, fetch_traceback chunk) refl

  -- The reasons by their statuses, from 1 on: LUA_YIELD, LUA_ERRRUN, LUA_ERRSYNTAX, LUA_ERRMEM.
  unfoldable pub reasons : List String
  reasons = "Yield error" ∷ "Runtime error" ∷ "Syntax error" ∷ "Out of memory" ∷ []

  named_or : ℤ → Option String → String
  named_or n none = "Unknown error " ++ lua.int_text n
  named_or n (some reason) = reason

  unfoldable pub reason_of : ℤ → String
  unfolding reasons named_or
  reason_of (pos zero) = named_or (pos zero) none
  reason_of (pos (suc k)) = named_or (pos (suc k)) (get_elem? reasons k)
  reason_of (negsuc k) = named_or (negsuc k) none

  error_reason-reason_of : (n : ℤ) → error_reason n ≡ reason_of n
  unfolding error_reason reason_of reasons named_or is_int
  error_reason-reason_of (negsuc k) = refl
  error_reason-reason_of (pos zero) = refl
  error_reason-reason_of (pos (suc zero)) = refl
  error_reason-reason_of (pos (suc (suc zero))) = refl
  error_reason-reason_of (pos (suc (suc (suc zero)))) = refl
  error_reason-reason_of (pos (suc (suc (suc (suc zero))))) = refl
  error_reason-reason_of (pos (suc (suc (suc (suc (suc k)))))) = ground arith

  -- What is logged for a status and the message on top.
  unfoldable pub outcome : ℤ → String → Option String
  unfolding is_int reason_of
  outcome n message =
      if is_int 0 n then none else some ("LUA error: " ++ (reason_of n ++ (": " ++ message)))

  log_error-outcome :
      (n : ℤ) (t : State) (message : String) (ys : List Value)
      → is_int 0 n ≡ false
      → t.stack ≡ string message ∷ ys
      → log_error n t ≡ ok (outcome n message) t
  unfolding log_error to_string outcome index2adr value_at
  log_error-outcome n t message ys failed top =
      rw (failed, top, sym (error_reason-reason_of n)) refl

  finish-failed : (n : ℤ) (t : State) → is_int 0 n ≡ false → finish n t ≡ log_error n t
  unfolding finish
  finish-failed n t failed = ap (λ b. (if b then pure none else log_error n) t) failed

  finish-outcome :
      (n : ℤ) (t : State) (message : String) (ys : List Value)
      → (is_int 0 n ≡ true) ⊎ (t.stack ≡ string message ∷ ys)
      → finish n t ≡ ok (outcome n message) t
  unfolding finish outcome
  finish-outcome n t message ys (inl fine) = rw (fine) refl
  finish-outcome n t message ys (inr top) = elim (Bool-cases (is_int 0 n)) [
    | inl fine ↦ rw (fine) refl
    | inr failed ↦ finish-failed n t failed ∙ log_error-outcome n t message ys failed top
  ]

  module _ (src : String) (s0 s : State) (l : ℤ) (first : Value)
      (loaded : lua.load_string src (record s0 { stack = [] }) ≡ ok l s)
      (top : s.stack ≡ first ∷ []) (g d : Table) (a : ℕ) (global : s.tables s.globals ≡ some g)
      (bare : g.metatable ≡ none) (has_debug : table_get g.entries (string "debug") ≡ table a)
      (debug : s.tables a ≡ some d) (bare_debug : d.metatable ≡ none) where
    -- The state in which a chunk is called.
    abbrev pub called : State
    called = record s { stack = first ∷ table_get d.entries (string "traceback") ∷ [] }

    pcall_ends :
        is_int 0 l ≡ true
        → (n : ℤ) (t : State)
        → (if is_int 0 l then lua.pcall (pos 0) (pos 0) (negsuc 1) called else ok l s) ≡ ok n t
        → lua.pcall (pos 0) (pos 0) (negsuc 1) called ≡ ok n t
    pcall_ends fine n t result =
        subst (λ b. (if b then lua.pcall (pos 0) (pos 0) (negsuc 1) called else ok l s) ≡ ok n t)
          fine result

    not_called :
        is_int 0 l ≡ false
        → (n : ℤ) (t : State)
        → (if is_int 0 l then lua.pcall (pos 0) (pos 0) (negsuc 1) called else ok l s) ≡ ok n t
        → (l ≡ n) × (s ≡ t)
    not_called failed n t result =
        let same : ok l s ≡ ok n t =
          subst (λ b. (if b then lua.pcall (pos 0) (pos 0) (negsuc 1) called else ok l s) ≡ ok n t)
            failed result in
        ground (arith, same)

    refused :
        is_int 0 l ≡ false
        → (n : ℤ) (t : State) (message : String) (ys : List Value)
        → (if is_int 0 l then lua.pcall (pos 0) (pos 0) (negsuc 1) called else ok l s) ≡ ok n t
        → (is_int 0 n ≡ true) ⊎ (t.stack ≡ string message ∷ ys)
        → log_error l s ≡ ok (outcome n message) t
    refused failed n t message ys result says =
        let (status, state) = not_called failed n t result in
        subst (λ u. log_error l s ≡ ok (outcome n message) u) state
          (subst (λ m. log_error l s ≡ ok (outcome m message) s) status
            (elim says [
              | inl fine ↦ absurd (ground (arith, fine, failed, ap (is_int 0) status))
              | inr text ↦
                  log_error-outcome l s message ys failed
                    (subst (λ u. u.stack ≡ string message ∷ ys) (sym state) text)
            ]))

    -- Where luaL_loadstring leaves one value on the emptied stack, a chunk with status 0 and else a
    -- message, and the globals and their `debug` are tables without a metatable: a chunk is called
    -- with debug.traceback under it, at the index -2 that lua_pcall is given for its handler; a code
    -- that does not load is not called. With the status of lua_pcall, or of luaL_loadstring where
    -- that is not 0: nothing is logged for 0, and else, with a text on top, the log has the reason of
    -- the status and the text. The state is the one that the last of the two left.
    pub run_code-outcome :
        (n : ℤ) (t : State) (message : String) (ys : List Value)
        → (if is_int 0 l then lua.pcall (pos 0) (pos 0) (negsuc 1) called else ok l s) ≡ ok n t
        → (is_int 0 n ≡ true) ⊎ (t.stack ≡ string message ∷ ys)
        → (value_at called (index2adr called.stack (negsuc 1))
            ≡ some (table_get d.entries (string "traceback")))
          × (run_code src s0 ≡ ok (outcome n message) t)
    unfolding run_code index2adr value_at
    run_code-outcome n t message ys result says = (
      refl,
      elim (Bool-cases (is_int 0 l)) [
        | inl fine ↦
            rw
              (
                emptied s0,
                loaded,
                fine,
                call_traced-pcall s g d a global bare has_debug debug bare_debug first top,
                pcall_ends fine n t result,
              )
              (finish-outcome n t message ys says)
        | inr failed ↦ rw (emptied s0, loaded, failed) (refused failed n t message ys result says)
      ],
    )
