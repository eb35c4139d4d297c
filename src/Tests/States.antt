-- ===== src/Tests/States.antt =====
-- A small Lua state, and a Java side with one field and a key whose check throws.
use sctx.Bridge.Env.{jni_env_tag}
use sctx.Bridge.Exports.Wrapping.{IsFresh}
use sctx.Bridge.Jni.{Java, Upcall, returned, threw}
use sctx.Bridge.Raise.{state_index_tag}
use sctx.Bridge.Ready.{HasEnv}
use sctx.Lua.Access.{Conversion}
use sctx.Lua.State.{Value, number, string, userdata, Table, Jvm, State, table_get}
use sctx.Prelude.{
  ℕ, String, ℤ, pos, refl, false, Option, none, some, List, [], ◌∷◌, ◌==◌, str_eq, if◌then◌else◌,
  arith,
}

abbrev pub conversion : Conversion
conversion = record { str2d = λ k. none; number2str = λ n. "number" }

-- A Java side with one field, `size`, one method, and a key whose check throws.
abbrev pub check : ℤ → ℕ → String → State → Upcall ℤ
check id obj k s =
    if str_eq k "size"
    then returned (pos 1) (record s { stack = number (pos 9) ∷ s.stack })
    else (if str_eq k "broken"
        then threw (record { message = none; text = "java.lang.Error" }) s
        else returned (pos 0) s)

abbrev pub java : Java
java = record {
  conversion = conversion;
  check_field = check;
  object_index = λ id obj k s. returned (pos 1) (record s { stack = string k ∷ s.stack });
  class_index = λ id obj k s. returned (if str_eq k "run" then pos 2 else pos 0) s;
  create_proxy_object = λ id k s. returned (pos 1) s;
  java_new_instance = λ id k s. returned (pos 1) s;
  java_load_lib = λ id k m s. returned (pos 1) s;
  java_new = λ id obj s. returned (pos 1) s;
  class_for_name = λ k s. returned 50 s;
  execute = λ obj s. returned (pos 1) (record s { stack = number (pos 6) ∷ s.stack });
  is_java_function = λ obj. obj == 42;
  is_class = λ obj. false;
  position = λ s. "main:1: ";
}

abbrev pub registry_table : List (Value × Value)
registry_table = (string state_index_tag, number (pos 7)) ∷ (string jni_env_tag, userdata 2) ∷ []

-- Tables 0 (the registry) and 1 (the globals), and the userdata of the environment, 2.
abbrev pub tables_with : List (Value × Value) → ℕ → Option Table
tables_with entries a =
    if a == 0
    then some (record { entries = entries; metatable = none })
    else (if a == 1 then some (record { entries = []; metatable = none }) else none)

abbrev pub empty_jvm : Jvm
empty_jvm = record { globals = []; next_ref = 1; locals = 0; pins = 0 }

abbrev pub opened : State
opened = record {
  stack = [];
  registry = 0;
  globals = 1;
  frame = none;
  tables = tables_with ((string state_index_tag, number (pos 7)) ∷ []);
  blocks = λ a. none;
  basic_metatables = λ a. none;
  fresh = 2;
  jvm = empty_jvm;
}

abbrev pub entered : State
entered = record opened {
  tables = tables_with registry_table;
  blocks = λ a. if a == 2 then some (record { content = 5; metatable = none }) else none;
  fresh = 3;
}

pub entered-HasEnv : HasEnv entered 5
unfolding table_get
entered-HasEnv = record {
  entries = record { entries = registry_table; metatable = none };
  registered = refl;
  holder = 2;
  held = record { content = 5; metatable = none };
  entry = refl;
  block = refl;
  content = refl;
}

pub entered-IsFresh : IsFresh entered
entered-IsFresh = record { tables = λ a h. ground arith; blocks = λ a h. ground arith }
