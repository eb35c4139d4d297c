-- ===== src/Bridge/Library/Classes.antt =====
-- luajava.bindClass: javaBindClass of jni/luajava/luajava.c from the name of a class to its proxy.
use sctx.Bridge.Calls.{with_local}
use sctx.Bridge.Env.{get_env_from_state}
use sctx.Bridge.Exports.Wrapping.{acquired}
use sctx.Bridge.Jni.{Java, returned}
use sctx.Bridge.Library.{bind_class}
use sctx.Bridge.Objects.{index_tag, push_java_class}
use sctx.Bridge.Objects.Proxies.{proxied, push_proxy-proxied}
use sctx.Bridge.Raise.Exceptions.{call_java-returned}
use sctx.Bridge.Ready.{require_env-ok}
use sctx.Lua.Index.{index2adr, value_at}
use sctx.Lua.Reads.{Names, is_string-value, to_string-text}
use sctx.Lua.State.{class_index_fn, string, State, ok}
use sctx.Prelude.{ℕ, ◌+◌, ◌-◌, pos, String, ◌≡◌, ◌≢◌, [], ◌∷◌, ap, length, arith}

push_java_class-proxied :
    (env obj : ℕ) (s : State)
    → get_env_from_state s ≡ ok env s
    → env ≢ 0
    → obj ≢ 0
    → push_java_class obj s
      ≡ ok (pos 1) (proxied index_tag class_index_fn s.jvm.next_ref (acquired obj s))
unfolding push_java_class
push_java_class-proxied env obj s e nonzero live =
    rw (require_env-ok env s e nonzero)
      (ground (arith, push_proxy-proxied index_tag class_index_fn s.jvm.next_ref (acquired obj s)))

-- The state after Class.forName, with the reference to the class in place of that to its name.
abbrev pub named_class : State → State
named_class s = record s { jvm = record s.jvm { locals = s.jvm.locals - 1 + 1 } }

-- With one text as argument and an environment, before and after Class.forName, that is not NULL:
-- where Class.forName returns a class that is not NULL, bindClass gives one value, the proxy of the
-- class with classIndex as its index function, which holds a new global reference to the class.
pub bind_class-proxied :
    (java : Java) (env after class : ℕ) (k : String) (s s' : State)
    → s.stack ≡ string k ∷ []
    → get_env_from_state s ≡ ok env s
    → env ≢ 0
    → java.class_for_name k (with_local s) ≡ returned class s'
    → get_env_from_state (named_class s') ≡ ok after (named_class s')
    → after ≢ 0
    → class ≢ 0
    → bind_class java s
      ≡ ok
          (pos 1)
          (proxied index_tag class_index_fn s'.jvm.next_ref (acquired class (named_class s')))
unfolding bind_class index2adr value_at
bind_class-proxied java env after class k s s' top e nonzero found e' nonzero' live =
    let at : Names s (pos 1) (string k) = ground arith in
    let one : length s.stack ≡ 1 = ap length top in
    rw (
      one,
      require_env-ok env s e nonzero,
      is_string-value s (pos 1) (string k) at,
      to_string-text s (pos 1) java.conversion k at,
      call_java-returned (java.class_for_name k) (with_local s) s' class found,
      push_java_class-proxied after class (named_class s') e' nonzero' live,
    )
