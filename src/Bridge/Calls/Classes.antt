-- ===== src/Bridge/Calls/Classes.antt =====
-- Calls through the other proxies of jni/luajava/luajava.c: a field or method of a class
-- (classIndex), and a Java function (luaJavaFunctionCall).
use sctx.Bridge.Calls.{ProxyFrame, with_local}
use sctx.Bridge.Calls.Methods.{remembered, Names-jvm, metatable_of-jvm}
use sctx.Bridge.Index.{after_class_index, class_index, java_function_call}
use sctx.Bridge.Jni.{Java, returned, delete_local_ref}
use sctx.Bridge.Objects.Marks.{is_java_object-marked}
use sctx.Bridge.Raise.{call_java}
use sctx.Bridge.Raise.Exceptions.{state_index-known, call_java-returned}
use sctx.Bridge.Ready.{HasEnv-get_env, require_env-ok, object_of-live}
use sctx.Lua.Heap.{metatable_of}
use sctx.Lua.Reads.{Names, to_userdata-block, is_string-value, to_string-text, read_block-held}
use sctx.Lua.State.{string, userdata, Table, State, Run, ok, error, nothing, ◌>>=◌}
use sctx.Prelude.{
  ℕ, zero, suc, ◌-◌, ℤ, pos, negsuc, String, ◌≡◌, refl, some, ◌∷◌, if◌then◌else◌, arith,
}

-- The state without the string that the handler made for the call.
abbrev pub dropped : State → State
dropped s = record s { jvm = record s.jvm { locals = s.jvm.locals - 1 } }

-- The answers of classIndex to the results of LuaJavaAPI.classIndex.
unfoldable pub class_answer : ℤ → ℕ → Table → String → State → Run ℤ
class_answer (pos zero) m t k s =
    error
      (record (dropped s) { stack = string "Name is not a static field or function." ∷ s.stack })
class_answer (pos (suc (suc zero))) m t k s = ok (pos 1) (remembered k m t s)
class_answer n m t k s = ok n (dropped s)

after_class_index-answer :
    (n : ℤ) (m : ℕ) (t : Table) (k : String) (u : ℕ) (s : State)
    → Names (dropped s) (pos 1) (userdata u)
    → metatable_of (dropped s) (userdata u) ≡ some m
    → s.tables m ≡ some t
    → after_class_index k n (dropped s) ≡ class_answer n m t k s
unfolding after_class_index class_answer
after_class_index-answer (pos zero) m t k u s first meta entries = ground arith
after_class_index-answer (pos (suc zero)) m t k u s first meta entries = ground arith
after_class_index-answer (pos (suc (suc zero))) m t k u s first meta entries = ground arith
after_class_index-answer (pos (suc (suc (suc j)))) m t k u s first meta entries = ground arith
after_class_index-answer (negsuc j) m t k u s first meta entries = ground arith

module _ (java : Java) (s : State) (id : ℤ) (u obj : ℕ) (frame : ProxyFrame s id u obj) where
  -- On a frame with a proxy first, luaJavaFunctionCall runs `execute` of the object where that is a
  -- JavaFunction, and else gives no value and changes nothing.
  java_function_call-execute :
      java_function_call java s
      ≡ (if java.is_java_function obj then call_java nothing (java.execute obj) s else ok (pos 0) s)
  unfolding java_function_call
  java_function_call-execute =
      rw
        (
          is_java_object-marked s (pos 1) (userdata u) frame.first frame.has_table,
          frame.mark,
          to_userdata-block s (pos 1) u frame.first,
          require_env-ok frame.env s (HasEnv-get_env frame.has_env) frame.env_ne,
          read_block-held u frame.held s frame.block,
          object_of-live frame.held.content obj s frame.live frame.found,
        )
        (ground arith)

  module _ (k : String) (second : Names s (pos 2) (string k)) where
    -- classIndex asks LuaJavaAPI for the name `k` of the class.
    class_index-ask :
        class_index java s
        ≡ (call_java delete_local_ref (java.class_index id obj k) >>= after_class_index k)
            (with_local s)
    unfolding class_index
    class_index-ask =
        rw
          (
            state_index-known java s frame.has_env.entries frame.has_env.registered id frame.known,
            is_java_object-marked s (pos 1) (userdata u) frame.first frame.has_table,
            frame.mark,
            is_string-value s (pos 2) (string k) second,
            to_string-text s (pos 2) java.conversion k second,
            to_userdata-block s (pos 1) u frame.first,
            require_env-ok frame.env s (HasEnv-get_env frame.has_env) frame.env_ne,
            read_block-held u frame.held (with_local s) frame.block,
            object_of-live frame.held.content obj (with_local s) frame.live frame.found,
          )
          refl

    module _ (s' : State) where
      -- What classIndex answers, on a frame with a proxy first and the text `k` second, where
      -- LuaJavaAPI returns `n` and leaves the proxy first, with the table `m` as metatable: for 0 an
      -- error, for 2 the function objectIndexReturn with `k` stored in the metatable, and any other
      -- number itself; each time the string made for the call is deleted.
      pub class_index-returned :
          (n : ℤ) (m : ℕ) (t : Table)
          → java.class_index id obj k (with_local s) ≡ returned n s'
          → Names s' (pos 1) (userdata u)
          → metatable_of s' (userdata u) ≡ some m
          → s'.tables m ≡ some t
          → class_index java s ≡ class_answer n m t k s'
      class_index-returned n m t e first meta entries =
          rw (class_index-ask, call_java-returned (java.class_index id obj k) (with_local s) s' n e)
            (after_class_index-answer n m t k u s' (Names-jvm s' _ (pos 1) (userdata u) first)
              (metatable_of-jvm s' _ u m meta) entries)
