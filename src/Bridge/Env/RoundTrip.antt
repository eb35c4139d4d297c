-- ===== src/Bridge/Env/RoundTrip.antt =====
-- The JNIEnv that a native method stores is the one that the handlers read.
use sctx.Bridge.Env.{jni_env_tag, get_env_from_state, push_jni_env}
use sctx.Lua.Entries.{table_get-table_set_self}
use sctx.Lua.State.{nil, string, userdata, Table, Block, State, ok, table_get, table_set, update}
use sctx.Prelude.{ℕ, suc, ◌≡◌, refl, none, some, arith, ==_refl}

-- A registry that pushJNIEnv can meet: a table, in which the entry of the environment is absent or
-- a userdata.
pub data EnvEntry (s : State) (t : Table) : Type 0 where
  absent : table_get t.entries (string jni_env_tag) ≡ nil → EnvEntry s t
  present :
      (u : ℕ) (b : Block)
      → table_get t.entries (string jni_env_tag) ≡ userdata u
      → s.blocks u ≡ some b
      → EnvEntry s t

module _ (s : State) (t : Table) (registered : s.tables s.registry ≡ some t) where
  pub get_env-absent :
      table_get t.entries (string jni_env_tag) ≡ nil → get_env_from_state s ≡ ok 0 s
  unfolding get_env_from_state
  get_env-absent e = rw (registered, e) refl

  pub get_env-present :
      (u : ℕ) (b : Block)
      → table_get t.entries (string jni_env_tag) ≡ userdata u
      → s.blocks u ≡ some b
      → get_env_from_state s ≡ ok b.content s
  unfolding get_env_from_state
  get_env-present u b e k = rw (registered, e, k) refl

-- The state after pushJNIEnv found an entry, and after it made one.
abbrev with_env : State → ℕ → Block → ℕ → State
with_env s u b env = record s { blocks = update s.blocks u (record b { content = env }) }

abbrev with_new_env : State → Table → ℕ → State
with_new_env s t env = record s {
  tables =
      update s.tables s.registry
        (record t { entries = table_set t.entries (string jni_env_tag) (userdata s.fresh) });
  blocks =
      update (update s.blocks s.fresh (record { content = 0; metatable = none })) s.fresh
        (record { content = env; metatable = none });
  fresh = suc s.fresh;
}

push_jni_env-present :
    (env : ℕ) (s : State) (t : Table) (u : ℕ) (b : Block)
    → s.tables s.registry ≡ some t
    → table_get t.entries (string jni_env_tag) ≡ userdata u
    → s.blocks u ≡ some b
    → push_jni_env env s ≡ ok tt (with_env s u b env)
unfolding push_jni_env
push_jni_env-present env s t u b r e k = rw (r, e, k) refl

push_jni_env-absent :
    (env : ℕ) (s : State) (t : Table)
    → s.tables s.registry ≡ some t
    → table_get t.entries (string jni_env_tag) ≡ nil
    → push_jni_env env s ≡ ok tt (with_new_env s t env)
unfolding push_jni_env
push_jni_env-absent env s t r e = ground (arith, ==_refl s.fresh)

-- What pushJNIEnv leaves: the stack and the references as they were, and a registry whose entry
-- is a userdata that holds the pointer.
pub record Entered (env : ℕ) (s s' : State) : Type 0 where
  pub stack : s'.stack ≡ s.stack
  pub jvm : s'.jvm ≡ s.jvm
  pub read : get_env_from_state s' ≡ ok env s'
  pub entries : Table
  pub registered : s'.tables s'.registry ≡ some entries
  pub entry : EnvEntry s' entries

-- From a registry with no environment or with one in a userdata, pushJNIEnv succeeds, keeps the
-- stack and the references, and getEnvFromState then gives the stored pointer and changes nothing;
-- the registry again has an environment in a userdata or none.
pub get_env-push_jni_env :
    (env : ℕ) (s : State) (t : Table)
    → s.tables s.registry ≡ some t
    → EnvEntry s t
    → (s' : State) × (push_jni_env env s ≡ ok tt s') × Entered env s s'
get_env-push_jni_env env s t r (present u b e k) =
    let held : (with_env s u b env).blocks u ≡ some (record b { content = env }) =
      rw ==_refl refl in
    (
      with_env s u b env,
      push_jni_env-present env s t u b r e k,
      record {
        stack = refl;
        jvm = refl;
        read = get_env-present (with_env s u b env) t r u (record b { content = env }) e held;
        entries = t;
        registered = r;
        entry = present u (record b { content = env }) e held;
      },
    )
get_env-push_jni_env env s t r (absent e) =
    let s' = with_new_env s t env in
    let t' : Table = record t {
      entries = table_set t.entries (string jni_env_tag) (userdata s.fresh);
    } in
    let b : Block = record { content = env; metatable = none } in
    let stored : s'.tables s'.registry ≡ some t' = rw ==_refl refl in
    let held : s'.blocks s.fresh ≡ some b = rw ==_refl refl in
    let found = table_get-table_set_self t.entries jni_env_tag (userdata s.fresh) in
    (
      s',
      push_jni_env-absent env s t r e,
      record {
        stack = refl;
        jvm = refl;
        read = get_env-present s' t' stored s.fresh b found held;
        entries = t';
        registered = stored;
        entry = present s.fresh b found held;
      },
    )
