-- ===== src/Bridge/Exports/Wrapping.antt =====
-- A Java object that goes to Lua and comes back: pushJavaObject, getObjectFromUserdata and the
-- collector's gc of jni/luajava/luajava.c together.
use sctx.Bridge.Env.{get_env_from_state}
use sctx.Bridge.Exports.{value, object_at}
use sctx.Bridge.Jni.{deref, forget}
use sctx.Bridge.Objects.{index_tag, push_java_object, gc}
use sctx.Bridge.Objects.Marks.{HasTable, marked, is_java_object-marked}
use sctx.Bridge.Objects.Proxies.{
  proxied, push_proxy-proxied, marked-proxied, HasTable-proxied, read_block-proxied,
}
use sctx.Bridge.Ready.{HasEnv, HasEnv-get_env, require_env-ok, object_of-live}
use sctx.Lua.Heap.{metatable_of}
use sctx.Lua.Index.{index2adr, value_at}
use sctx.Lua.Reads.{Names, to_userdata-block, read_block-held}
use sctx.Lua.State.{CFunction, object_index_fn, userdata, Block, State, ok}
use sctx.Prelude.{
  ℕ, suc, pos, negsuc, String, ◌≡◌, ◌≢◌, refl, true, none, some, ◌≤◌, ◌∙◌, [], ◌∷◌, arith,
}

-- The state with one more global reference.
abbrev pub acquired : ℕ → State → State
acquired obj s = record s {
  jvm = record s.jvm {
    globals = (s.jvm.next_ref, obj) ∷ s.jvm.globals;
    next_ref = suc s.jvm.next_ref;
  };
}

-- The state that pushJavaObject leaves.
abbrev pub object_pushed : ℕ → State → State
object_pushed obj s = proxied index_tag object_index_fn s.jvm.next_ref (acquired obj s)

pub push_java_object-proxied :
    (env obj : ℕ) (s : State)
    → get_env_from_state s ≡ ok env s
    → env ≢ 0
    → obj ≢ 0
    → push_java_object obj s ≡ ok (pos 1) (object_pushed obj s)
unfolding push_java_object
push_java_object-proxied env obj s e nonzero live =
    rw (require_env-ok env s e nonzero)
      (ground (arith, push_proxy-proxied index_tag object_index_fn s.jvm.next_ref (acquired obj s)))

object_at-proxied :
    (tag : String) (handler : CFunction) (ref obj : ℕ) (s : State)
    → ref ≢ 0
    → deref s.jvm.globals ref ≡ some obj
    → object_at (negsuc 0) (proxied tag handler ref s) ≡ ok (value obj) (proxied tag handler ref s)
unfolding object_at proxied
object_at-proxied tag handler ref obj s nonzero e =
    let s' = proxied tag handler ref s in
    rw (
      is_java_object-marked s' (negsuc 0) (userdata s.fresh) refl
          (HasTable-proxied tag handler ref s),
      marked-proxied,
      read_block-proxied,
      object_of-live ref obj s' nonzero e,
    )

-- Where getEnvFromState finds an environment that is not NULL, and neither the object nor the next
-- global reference is NULL, pushJavaObject succeeds with one new userdata on the stack, and what
-- getObjectFromUserdata then finds on top is the object that was pushed.
pub object_at-push_java_object :
    (env obj : ℕ) (s : State)
    → get_env_from_state s ≡ ok env s
    → env ≢ 0
    → obj ≢ 0
    → s.jvm.next_ref ≢ 0
    → (s' : State) × (push_java_object obj s ≡ ok (pos 1) s')
      × (s'.stack ≡ userdata s.fresh ∷ s.stack)
      × (object_at (negsuc 0) s' ≡ ok (value obj) s')
unfolding proxied deref
object_at-push_java_object env obj s e nonzero live ref_live = (
  object_pushed obj s,
  push_java_object-proxied env obj s e nonzero live,
  refl,
  object_at-proxied index_tag object_index_fn s.jvm.next_ref obj (acquired obj s) ref_live
      (ground arith),
)

-- The frame in which the collector calls __gc: the userdata is its only value.
abbrev pub collected : State → ℕ → State
collected s u = record s { stack = userdata u ∷ [] }

-- gc on a marked userdata whose block holds a live reference deletes that reference and changes
-- nothing else.
gc-marked :
    (env u obj : ℕ) (b : Block) (s : State)
    → Names s (pos 1) (userdata u)
    → HasTable s (userdata u)
    → marked s (userdata u) ≡ true
    → s.blocks u ≡ some b
    → get_env_from_state s ≡ ok env s
    → env ≢ 0
    → b.content ≢ 0
    → deref s.jvm.globals b.content ≡ some obj
    → gc s
      ≡ ok (pos 0) (record s { jvm = record s.jvm { globals = forget s.jvm.globals b.content } })
unfolding gc
gc-marked env u obj b s at has mark held e nonzero live found =
    rw
      (
        is_java_object-marked s (pos 1) (userdata u) at has,
        mark,
        to_userdata-block s (pos 1) u at,
        require_env-ok env s e nonzero,
        read_block-held u b s held,
      )
      (ground arith)

-- No table and no userdata has an identity that is still to be given out.
pub record IsFresh (s : State) : Type 0 where
  pub tables : (a : ℕ) → s.fresh ≤ a → s.tables a ≡ none
  pub blocks : (a : ℕ) → s.fresh ≤ a → s.blocks a ≡ none

-- Pushing an object and looking at another frame keep the environment.
HasEnv-pushed :
    (obj : ℕ) {s : State} {env : ℕ}
    → IsFresh s
    → HasEnv s env
    → HasEnv (collected (object_pushed obj s) s.fresh) env
unfolding proxied
HasEnv-pushed obj {s} f h = record {
  entries = h.entries;
  registered = ground (arith, f.tables s.registry, h.registered);
  holder = h.holder;
  held = h.held;
  entry = h.entry;
  block = ground (arith, f.blocks h.holder, h.block);
  content = h.content;
}

module _ (s : State) (u w : ℕ) where
  Names-collected : Names (collected s u) (pos 1) (userdata u)
  unfolding index2adr value_at
  Names-collected = refl

  HasTable-collected : HasTable s (userdata w) → HasTable (collected s u) (userdata w)
  unfolding metatable_of
  HasTable-collected has = has

  marked-collected : marked (collected s u) (userdata w) ≡ marked s (userdata w)
  unfolding marked metatable_of
  marked-collected = refl

-- The frame of the collector with the reference of `u` given back.
abbrev released : State → ℕ → ℕ → State
released s u ref = record s {
  stack = userdata u ∷ [];
  jvm = record s.jvm { globals = forget s.jvm.globals ref };
}

-- The references of Java objects are balanced. In a state with an environment that is not NULL, with
-- no object at an identity still to be given out, and with an object and a next global reference
-- that are not NULL, pushJavaObject succeeds; and when the collector then calls __gc with the new
-- userdata, the live global references are again those from before the push.
pub gc-push_java_object :
    (env obj : ℕ) (s : State)
    → IsFresh s
    → HasEnv s env
    → env ≢ 0
    → obj ≢ 0
    → s.jvm.next_ref ≢ 0
    → (pushed s' : State) × (push_java_object obj s ≡ ok (pos 1) pushed)
      × (gc (collected pushed s.fresh) ≡ ok (pos 0) s')
      × (s'.jvm.globals ≡ s.jvm.globals)
unfolding proxied deref forget
gc-push_java_object env obj s f h nonzero live ref_live =
    let pushed = object_pushed obj s in
    let u = s.fresh in
    let ref = s.jvm.next_ref in
    let handler = object_index_fn in
    let b : Block = record { content = ref; metatable = some (suc u) } in
    (
      pushed,
      released pushed u ref,
      push_java_object-proxied env obj s (HasEnv-get_env h) nonzero live,
      gc-marked env u obj b (collected pushed u) (Names-collected pushed u u)
          (HasTable-collected pushed u u (HasTable-proxied index_tag handler ref (acquired obj s)))
          (marked-collected pushed u u ∙ marked-proxied index_tag handler ref (acquired obj s))
          (ground arith) (HasEnv-get_env (HasEnv-pushed obj f h)) nonzero ref_live (ground arith),
      ground arith,
    )
