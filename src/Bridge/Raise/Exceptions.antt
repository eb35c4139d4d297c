-- ===== src/Bridge/Raise/Exceptions.antt =====
-- The two ends of a call of Java by jni/luajava/luajava.c, and the id of the Lua state.
use sctx.Bridge.Jni.{Java, Throwable, Upcall, returned, threw, delete_local_ref}
use sctx.Bridge.Raise.{state_index_tag, state_index, call_java}
use sctx.Lua.Access.{to_number_value}
use sctx.Lua.State.{Value, number, string, Table, State, ok, error, table_get}
use sctx.Prelude.{◌+◌, ◌-◌, ◌≤◌, String, ℤ, ◌≡◌, none, some, ◌∷◌, arith}

-- What Lua sees of an exception: its message, or its text where it has none.
unfoldable pub message_of : Throwable → String
message_of exp = elim exp.message [ none ↦ exp.text | some m ↦ m ]

module _ {A : Type 0} (upcall : State → Upcall A) (s s' : State) where
  -- A call that returns deletes the string made for it, and touches nothing else.
  pub call_java-returned :
      (a : A)
      → upcall s ≡ returned a s'
      → call_java delete_local_ref upcall s
        ≡ ok a (record s' { jvm = record s'.jvm { locals = s'.jvm.locals - 1 } })
  unfolding call_java delete_local_ref
  call_java-returned a e = ground arith

  -- A call that throws, in a state with a local reference for the handler's string, ends in a Lua
  -- error whose value is the message of the exception (its text where it has none), above the stack
  -- that the Java code left. The string made for the call is deleted, but the references to the
  -- exception and to its message stay: there is one local reference more than the Java code left,
  -- and as many pinned strings.
  pub call_java-threw :
      (exp : Throwable)
      → upcall s ≡ threw exp s'
      → 1 ≤ s'.jvm.locals
      → call_java delete_local_ref upcall s
        ≡ error (record s' {
          stack = string (message_of exp) ∷ s'.stack;
          jvm = record s'.jvm { locals = s'.jvm.locals + 1 };
        })
  unfolding call_java delete_local_ref message_of
  call_java-threw exp e made = ground arith

module _ (java : Java) (s : State) (t : Table) (registered : s.tables s.registry ≡ some t) where
  pub state_index-known :
      (id : ℤ)
      → table_get t.entries (string state_index_tag) ≡ number id
      → state_index java s ≡ ok id s
  unfolding state_index to_number_value
  state_index-known id e = ground arith

  -- Without a number in the registry a handler stops at once.
  pub state_index-unknown :
      (v : Value)
      → table_get t.entries (string state_index_tag) ≡ v
      → to_number_value java.conversion v ≡ none
      → state_index java s
        ≡ error (record s { stack = string "Impossible to identify luaState id." ∷ v ∷ s.stack })
  unfolding state_index
  state_index-unknown v e none_of = ground arith
