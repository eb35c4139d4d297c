-- ===== src/Tests/Bridge.antt =====
-- The bridge of jni/luajava/luajava.c on a small Lua state: its theorems at work.
use sctx.Bridge.Calls.{ProxyFrame, with_local}
use sctx.Bridge.Calls.Classes.{class_answer, class_index-returned}
use sctx.Bridge.Calls.Methods.{
  naming, remembered, object_index-method, object_index-throws, object_index_return-remembered,
}
use sctx.Bridge.Env.{push_jni_env}
use sctx.Bridge.Env.RoundTrip.{absent, Entered, get_env-push_jni_env}
use sctx.Bridge.Exports.{value, object_at}
use sctx.Bridge.Exports.Wrapping.{
  acquired, object_pushed, collected, object_at-push_java_object, gc-push_java_object,
}
use sctx.Bridge.Index.{object_index, object_index_return, class_index}
use sctx.Bridge.Jni.{deref, delete_local_ref}
use sctx.Bridge.Objects.{index_tag, gc_tag, object_ind, is_java_object, push_java_object, gc}
use sctx.Bridge.Objects.Proxies.{proxied, HasTable-proxied}
use sctx.Lua.Heap.{metatable_of}
use sctx.Lua.Index.{index2adr, value_at}
use sctx.Bridge.Objects.Marks.{HasTable, marked, is_java_object-marked}
use sctx.Bridge.Raise.{state_index_tag, call_java}
use sctx.Bridge.Raise.Exceptions.{message_of}
use sctx.Bridge.Ready.{HasEnv-get_env}
use sctx.Lua.State.{
  object_index_fn, gc_fn, Value, boolean, function, number, string, userdata, Table, State, ok,
  error, table_get, table_set,
}
use sctx.Prelude.{String, pos, negsuc, ◌≡◌, refl, true, none, some, List, [], ◌∷◌, arith}
use sctx.Tests.States.{
  java, registry_table, empty_jvm, opened, entered, entered-HasEnv, entered-IsFresh,
}

get_env-push_jni_env_example :
    (s' : State) × (push_jni_env 5 opened ≡ ok tt s') × Entered 5 opened s'
unfolding table_get
get_env-push_jni_env_example =
    get_env-push_jni_env 5 opened
      (record { entries = (string state_index_tag, number (pos 7)) ∷ []; metatable = none }) refl
      (absent refl)

object_at-push_java_object_example :
    (s' : State) × (push_java_object 42 entered ≡ ok (pos 1) s')
    × (s'.stack ≡ userdata 3 ∷ [])
    × (object_at (negsuc 0) s' ≡ ok (value 42) s')
object_at-push_java_object_example =
    object_at-push_java_object 5 42 entered (HasEnv-get_env entered-HasEnv) (omega arith)
      (omega arith) (omega arith)

gc-push_java_object_example :
    (pushed s' : State) × (push_java_object 42 entered ≡ ok (pos 1) pushed)
    × (gc (collected pushed 3) ≡ ok (pos 0) s')
    × (s'.jvm.globals ≡ [])
gc-push_java_object_example =
    gc-push_java_object 5 42 entered entered-IsFresh entered-HasEnv (omega arith) (omega arith)
      (omega arith)

-- The proxy of object 42 as the first value of a frame, with values above it.
abbrev frame_of : List Value → State
frame_of args = record (object_pushed 42 entered) { stack = args }

abbrev key_args : String → List Value
key_args k = string k ∷ userdata 3 ∷ []

proxy_frame : (k : String) → ProxyFrame (frame_of (key_args k)) (pos 7) 3 42
unfolding proxied table_get table_set index2adr value_at marked metatable_of deref
proxy_frame k = record {
  env = 5;
  has_env = record {
    entries = record { entries = registry_table; metatable = none };
    registered = refl;
    holder = 2;
    held = record { content = 5; metatable = none };
    entry = refl;
    block = refl;
    content = refl;
  };
  env_ne = omega arith;
  known = refl;
  first = refl;
  has_table = HasTable-proxied index_tag object_index_fn 1 (acquired 42 entered);
  mark = refl;
  held = record { content = 1; metatable = some 4 };
  block = refl;
  live = omega arith;
  found = refl;
}

is_java_object-marked_example :
    is_java_object (pos 1) (frame_of (key_args "run"))
    ≡ ok (marked (frame_of (key_args "run")) (userdata 3)) (frame_of (key_args "run"))
is_java_object-marked_example =
    is_java_object-marked (frame_of (key_args "run")) (pos 1) (userdata 3) (proxy_frame "run").first
      (proxy_frame "run").has_table

abbrev asking : List Value → State
asking args = with_local (frame_of args)

object_index-throws_example :
    object_index java (frame_of (key_args "broken"))
    ≡ error (record (asking (key_args "broken")) {
      stack = string "java.lang.Error" ∷ key_args "broken";
      jvm = record empty_jvm { globals = (1, 42) ∷ []; next_ref = 2; locals = 2 };
    })
unfolding proxied message_of value_at index2adr
object_index-throws_example =
    object_index-throws java (frame_of (key_args "broken")) (pos 7) 3 42 (proxy_frame "broken")
      "broken" refl (asking (key_args "broken"))
      (record { message = none; text = "java.lang.Error" }) refl (omega arith)

-- The metatable of the proxy, table 4.
abbrev metatable : Table
metatable = record {
  entries =
      (string index_tag, function 5 object_index_fn)
      ∷ (string gc_tag, function 6 gc_fn)
      ∷ (string object_ind, boolean true)
      ∷ [];
  metatable = none;
}

object_index-method_example :
    object_index java (frame_of (key_args "run"))
    ≡ ok (pos 1) (remembered "run" 4 metatable (asking (key_args "run")))
unfolding proxied table_set index2adr value_at metatable_of
object_index-method_example =
    object_index-method java (frame_of (key_args "run")) (pos 7) 3 42 (proxy_frame "run") "run" refl
      (asking (key_args "run")) 4 metatable refl refl refl refl

class_index-returned_example :
    class_index java (frame_of (key_args "run"))
    ≡ ok (pos 1) (remembered "run" 4 metatable (asking (key_args "run")))
unfolding proxied table_set index2adr value_at metatable_of class_answer
class_index-returned_example =
    class_index-returned java (frame_of (key_args "run")) (pos 7) 3 42 (proxy_frame "run") "run"
      refl (asking (key_args "run")) (pos 2) 4 metatable refl refl refl refl

-- A later call of the function, with the proxy as its argument.
abbrev called : State
called = record (remembered "run" 4 metatable (asking (key_args "run"))) { stack = userdata 3 ∷ [] }

called-HasTable : HasTable called (userdata 3)
unfolding proxied metatable_of
called-HasTable m e = (naming "run" metatable, ground arith)

called_frame : ProxyFrame called (pos 7) 3 42
unfolding proxied table_get table_set index2adr value_at marked metatable_of deref
called_frame = record {
  env = 5;
  has_env = record {
    entries = record { entries = registry_table; metatable = none };
    registered = refl;
    holder = 2;
    held = record { content = 5; metatable = none };
    entry = refl;
    block = refl;
    content = refl;
  };
  env_ne = omega arith;
  known = refl;
  first = refl;
  has_table = called-HasTable;
  mark = refl;
  held = record { content = 1; metatable = some 4 };
  block = refl;
  live = omega arith;
  found = refl;
}

object_index_return-remembered_example :
    object_index_return java called
    ≡ call_java delete_local_ref (java.object_index (pos 7) 42 "run") (with_local called)
unfolding proxied metatable_of
object_index_return-remembered_example =
    object_index_return-remembered java (asking (key_args "run")) (pos 7) 3 42 4 metatable "run"
      (userdata 3 ∷ []) refl called_frame
