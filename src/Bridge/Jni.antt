-- ===== src/Bridge/Jni.antt =====
-- The Java virtual machine as jni/luajava/luajava.c uses it. The references and strings that the
-- bridge acquires and gives back are counted here; what Java code does is a parameter.
use sctx.Prelude.{
  ℕ, suc, ◌+◌, ◌-◌, String, ℤ, Bool, Option, none, some, List, [], ◌∷◌, ◌==◌, if◌then◌else◌,
}
use sctx.Lua.Access.{Conversion}
use sctx.Lua.State.{State, ok, fault, Lua}

-- A Java exception: its message, which may be null, and its text.
pub record Throwable : Type 0 where
  pub message : Option String
  pub text : String

-- A call of a Java method by the bridge. The method may run the Lua state that it is called from.
pub data Upcall (A : Type 0) : Type 0 where
  returned : A → State → Upcall A
  threw : Throwable → State → Upcall A

-- Java, as the bridge sees it. The first argument of the methods of LuaJavaAPI is the id of the
-- Lua state, as LuaStateFactory gave it.
pub record Java : Type 0 where
  pub conversion : Conversion
  pub check_field : ℤ → ℕ → String → State → Upcall ℤ
  pub object_index : ℤ → ℕ → String → State → Upcall ℤ
  pub class_index : ℤ → ℕ → String → State → Upcall ℤ
  pub create_proxy_object : ℤ → String → State → Upcall ℤ
  pub java_new_instance : ℤ → String → State → Upcall ℤ
  pub java_load_lib : ℤ → String → String → State → Upcall ℤ
  pub java_new : ℤ → ℕ → State → Upcall ℤ
  pub class_for_name : String → State → Upcall ℕ
  pub execute : ℕ → State → Upcall ℤ
  pub is_java_function : ℕ → Bool
  pub is_class : ℕ → Bool
  -- luaL_where: the position of the running Lua code, for messages.
  pub position : State → String

-- The object that a reference stands for.
unfoldable pub deref : List (ℕ × ℕ) → ℕ → Option ℕ
deref [] r = none
deref ((q, o) ∷ refs) r = if q == r then some o else deref refs r

unfoldable pub forget : List (ℕ × ℕ) → ℕ → List (ℕ × ℕ)
forget [] r = []
forget ((q, o) ∷ refs) r = if q == r then refs else (q, o) ∷ forget refs r

-- NewGlobalRef: NULL for NULL, else a new reference, which is not NULL.
unfoldable pub new_global_ref : ℕ → Lua ℕ
new_global_ref obj s =
    if obj == 0
    then ok 0 s
    else ok s.jvm.next_ref (record s {
      jvm = record s.jvm {
        globals = (s.jvm.next_ref, obj) ∷ s.jvm.globals;
        next_ref = suc s.jvm.next_ref;
      };
    })

-- DeleteGlobalRef: nothing at NULL, undefined at a reference that is not live.
unfoldable pub delete_global_ref : ℕ → Lua (Unit {0})
unfolding deref forget
delete_global_ref r s = if r == 0 then ok tt s else elim (deref s.jvm.globals r) [
  | none ↦ fault
  | some o ↦ ok tt (record s { jvm = record s.jvm { globals = forget s.jvm.globals r } })
]

-- A local reference made: by NewStringUTF, ExceptionOccurred, FindClass or a call that returns an
-- object.
unfoldable pub new_local : Lua (Unit {0})
new_local s = ok tt (record s { jvm = record s.jvm { locals = s.jvm.locals + 1 } })

unfoldable pub delete_local_ref : Lua (Unit {0})
delete_local_ref s = ok tt (record s { jvm = record s.jvm { locals = s.jvm.locals - 1 } })

-- GetStringUTFChars and ReleaseStringUTFChars.
unfoldable pub pin_string : Lua (Unit {0})
pin_string s = ok tt (record s { jvm = record s.jvm { pins = s.jvm.pins + 1 } })

unfoldable pub release_string : Lua (Unit {0})
release_string s = ok tt (record s { jvm = record s.jvm { pins = s.jvm.pins - 1 } })
