-- ===== src/Bridge/Calls/Methods.antt =====
-- How objectIndex and objectIndexReturn of jni/luajava/luajava.c end, and how the name of a method
-- goes from the one to the other.
use sctx.Bridge.Calls.{ProxyFrame, with_local, object_index-check}
use sctx.Bridge.Index.{
  function_called, is_zero, called_name, after_check, object_index, object_index_return,
}
use sctx.Bridge.Jni.{Java, Throwable, returned, threw, delete_local_ref}
use sctx.Bridge.Objects.Marks.{marked, is_java_object-marked}
use sctx.Bridge.Raise.{call_java}
use sctx.Bridge.Raise.Exceptions.{
  message_of, state_index-known, call_java-returned, call_java-threw,
}
use sctx.Bridge.Ready.{HasEnv-get_env, require_env-ok, object_of-live}
use sctx.Lua.Entries.{table_get-table_set_self}
use sctx.Lua.Heap.{metatable_of}
use sctx.Lua.Index.{
  Address, slot, registry, environ, globals, nilobject, upvalue, index2adr, value_at,
}
use sctx.Lua.Reads.{Names, to_userdata-block, read_block-held}
use sctx.Lua.State.{
  Jvm, object_index_return_fn, Value, string, function, userdata, Table, State, ok, error,
  table_get, table_set, update,
}
use sctx.Prelude.{
  ℕ, suc, ◌+◌, ◌-◌, ◌≤◌, ℤ, pos, negsuc, String, ◌≡◌, refl, true, false, some, List, ◌∷◌, ◌∙◌,
  arith, ==_refl,
}

-- The table with the name of the method to call.
abbrev pub naming : String → Table → Table
naming k t = record t { entries = table_set t.entries (string function_called) (string k) }

-- The state that objectIndex leaves where it took `k` for a method: the name is in the metatable
-- `m`, objectIndexReturn is on top, and the string made for the call is deleted.
abbrev pub remembered : String → ℕ → Table → State → State
remembered k m t s = record s {
  stack = function s.fresh object_index_return_fn ∷ s.stack;
  tables = update s.tables m (naming k t);
  fresh = suc s.fresh;
  jvm = record s.jvm { locals = s.jvm.locals - 1 };
}

after_check-method :
    (k : String) (u m : ℕ) (t : Table) (s : State)
    → Names s (pos 1) (userdata u)
    → metatable_of s (userdata u) ≡ some m
    → s.tables m ≡ some t
    → after_check k (pos 0) s
      ≡ ok (pos 1) (record s {
        stack = function s.fresh object_index_return_fn ∷ s.stack;
        tables = update s.tables m (naming k t);
        fresh = suc s.fresh;
      })
unfolding after_check
after_check-method k u m t s first meta entries = ground arith

-- What an index names and what metatable a userdata has do not depend on the Java side.
value_at-jvm :
    (s : State) (j : Jvm) (a : Address) → value_at (record s { jvm = j }) a ≡ value_at s a
unfolding value_at
value_at-jvm s j (slot n) = refl
value_at-jvm s j registry = refl
value_at-jvm s j environ = refl
value_at-jvm s j globals = refl
value_at-jvm s j nilobject = refl
value_at-jvm s j (upvalue k) = refl

pub Names-jvm :
    (s : State) (j : Jvm) (idx : ℤ) (v : Value) → Names s idx v → Names (record s { jvm = j }) idx v
Names-jvm s j idx v h = value_at-jvm s j (index2adr s.stack idx) ∙ h

pub metatable_of-jvm :
    (s : State) (j : Jvm) (u m : ℕ)
    → metatable_of s (userdata u) ≡ some m
    → metatable_of (record s { jvm = j }) (userdata u) ≡ some m
unfolding metatable_of
metatable_of-jvm s j u m h = h

-- On a frame that begins with a proxy, the name is read from the proxy's metatable.
called_name-stored :
    (java : Java) (s : State) (u m : ℕ) (t : Table) (k : String)
    → Names s (pos 1) (userdata u)
    → marked s (userdata u) ≡ true
    → metatable_of s (userdata u) ≡ some m
    → s.tables m ≡ some t
    → table_get t.entries (string function_called) ≡ string k
    → called_name java s ≡ ok (some k) s
unfolding called_name marked
called_name-stored java s u m t k first mark meta entries name = ground arith

module _ (java : Java) (s : State) (id : ℤ) (u obj : ℕ) (frame : ProxyFrame s id u obj) (k : String)
    (top : Names s (negsuc 0) (string k)) (s' : State) where
  -- On a frame with a proxy first and the text `k` on top: where checkField returns a number that is
  -- not 0, objectIndex returns that number in the state that the Java code left, with the string
  -- made for the call deleted.
  object_index-field :
      (n : ℤ)
      → java.check_field id obj k (with_local s) ≡ returned n s'
      → is_zero n ≡ false
      → object_index java s
        ≡ ok n (record s' { jvm = record s'.jvm { locals = s'.jvm.locals - 1 } })
  unfolding after_check
  object_index-field n e field = rw (
    object_index-check java s id u obj frame k top,
    call_java-returned (java.check_field id obj k) (with_local s) s' n e,
    field,
  )

  -- On a frame with a proxy first and the text `k` on top: where checkField returns 0, and the frame
  -- still begins with the proxy, whose metatable is the table `m`, objectIndex stores `k` in that
  -- table under the mark of the method to call, and its one result is objectIndexReturn.
  pub object_index-method :
      (m : ℕ) (t : Table)
      → java.check_field id obj k (with_local s) ≡ returned (pos 0) s'
      → Names s' (pos 1) (userdata u)
      → metatable_of s' (userdata u) ≡ some m
      → s'.tables m ≡ some t
      → object_index java s ≡ ok (pos 1) (remembered k m t s')
  object_index-method m t e first meta entries =
      rw
        (
          object_index-check java s id u obj frame k top,
          call_java-returned (java.check_field id obj k) (with_local s) s' (pos 0) e,
        )
        (after_check-method k u m t
          (record s' { jvm = record s'.jvm { locals = s'.jvm.locals - 1 } })
          (Names-jvm s' _ (pos 1) (userdata u) first) (metatable_of-jvm s' _ u m meta) entries)

  -- On a frame with a proxy first and the text `k` on top: where checkField throws, objectIndex ends
  -- in a Lua error with the exception's message above the stack that the Java code left, and with
  -- one local reference more than the Java code left.
  pub object_index-throws :
      (exp : Throwable)
      → java.check_field id obj k (with_local s) ≡ threw exp s'
      → 1 ≤ s'.jvm.locals
      → object_index java s
        ≡ error (record s' {
          stack = string (message_of exp) ∷ s'.stack;
          jvm = record s'.jvm { locals = s'.jvm.locals + 1 };
        })
  object_index-throws exp e made = rw (
    object_index-check java s id u obj frame k top,
    call_java-threw (java.check_field id obj k) (with_local s) s' exp e made,
  )

module _ (java : Java) (s : State) (id : ℤ) (u obj : ℕ) (frame : ProxyFrame s id u obj) where
  -- objectIndexReturn calls the method whose name stands in the metatable of the proxy that it is
  -- given.
  pub object_index_return-calls :
      (m : ℕ) (t : Table) (k : String)
      → metatable_of s (userdata u) ≡ some m
      → s.tables m ≡ some t
      → table_get t.entries (string function_called) ≡ string k
      → object_index_return java s
        ≡ call_java delete_local_ref (java.object_index id obj k) (with_local s)
  unfolding object_index_return
  object_index_return-calls m t k meta entries name = rw (
    state_index-known java s frame.has_env.entries frame.has_env.registered id frame.known,
    is_java_object-marked s (pos 1) (userdata u) frame.first frame.has_table,
    frame.mark,
    called_name-stored java s u m t k frame.first frame.mark meta entries name,
    to_userdata-block s (pos 1) u frame.first,
    require_env-ok frame.env s (HasEnv-get_env frame.has_env) frame.env_ne,
    read_block-held u frame.held (with_local s) frame.block,
    object_of-live frame.held.content obj (with_local s) frame.live frame.found,
  )

-- After objectIndex took the key `k` for a method, objectIndexReturn on any frame that begins with
-- the proxy, in a state with the environment and the id, calls the method `k` of the object. The
-- name is that of the latest key: the function that was called carries none of its own.
pub object_index_return-remembered :
    (java : Java) (s : State) (id : ℤ) (u obj m : ℕ) (t : Table) (k : String) (args : List Value)
    → metatable_of (record (remembered k m t s) { stack = args }) (userdata u) ≡ some m
    → ProxyFrame (record (remembered k m t s) { stack = args }) id u obj
    → object_index_return java (record (remembered k m t s) { stack = args })
      ≡ call_java delete_local_ref
          (java.object_index id obj k)
          (with_local (record (remembered k m t s) { stack = args }))
object_index_return-remembered java s id u obj m t k args meta frame =
    object_index_return-calls java (record (remembered k m t s) { stack = args }) id u obj frame m
      (naming k t) k meta (rw ==_refl refl)
      (table_get-table_set_self t.entries function_called (string k))
