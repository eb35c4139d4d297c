-- ===== src/Tests/Library.antt =====
-- luajava.bindClass on the small state.
use sctx.Bridge.Calls.{with_local}
use sctx.Bridge.Exports.Wrapping.{acquired}
use sctx.Bridge.Library.{bind_class}
use sctx.Bridge.Library.Classes.{named_class, bind_class-proxied}
use sctx.Bridge.Objects.{index_tag}
use sctx.Bridge.Objects.Proxies.{proxied}
use sctx.Bridge.Ready.{HasEnv, HasEnv-get_env}
use sctx.Lua.State.{class_index_fn, Value, Jvm, string, State, ok}
use sctx.Prelude.{pos, ◌≡◌, refl, List, [], ◌∷◌, arith}
use sctx.Tests.States.{java, entered, entered-HasEnv}

abbrev binding : State
binding = record entered { stack = string "java.util.Date" ∷ [] }

-- The environment does not depend on the stack and the references.
moved-HasEnv : (xs : List Value) (j : Jvm) → HasEnv (record entered { stack = xs; jvm = j }) 5
moved-HasEnv xs j =
    let h = entered-HasEnv in
    record {
      entries = h.entries;
      registered = h.registered;
      holder = h.holder;
      held = h.held;
      entry = h.entry;
      block = h.block;
      content = h.content;
    }

bind_class-proxied_example :
    bind_class java binding
    ≡ ok
        (pos 1)
        (proxied index_tag class_index_fn 1 (acquired 50 (named_class (with_local binding))))
bind_class-proxied_example =
    bind_class-proxied java 5 5 50 "java.util.Date" binding (with_local binding) refl
      (HasEnv-get_env (moved-HasEnv binding.stack binding.jvm)) (omega arith) refl
      (HasEnv-get_env (moved-HasEnv binding.stack (named_class (with_local binding)).jvm))
      (omega arith) (omega arith)
