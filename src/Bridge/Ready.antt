-- ===== src/Bridge/Ready.antt =====
-- States in which a handler of jni/luajava/luajava.c finds what it needs: the environment, and live
-- references.
use sctx.Bridge.Env.{jni_env_tag, get_env_from_state}
use sctx.Bridge.Env.RoundTrip.{get_env-present}
use sctx.Bridge.Index.{object_of}
use sctx.Bridge.Jni.{deref}
use sctx.Bridge.Objects.{require_env}
use sctx.Lua.State.{string, userdata, Table, Block, State, ok, table_get}
use sctx.Prelude.{ℕ, ◌≡◌, ◌≢◌, some, arith, ap, ◌∙◌}

pub require_env-ok :
    (env : ℕ) (s : State) → get_env_from_state s ≡ ok env s → env ≢ 0 → require_env s ≡ ok env s
unfolding require_env
require_env-ok env s e nonzero = ground arith

pub object_of-live :
    (ref obj : ℕ) (s : State)
    → ref ≢ 0
    → deref s.jvm.globals ref ≡ some obj
    → object_of ref s ≡ ok obj s
unfolding object_of
object_of-live ref obj s nonzero e = ground arith

-- A state in which a native method has stored an environment.
pub record HasEnv (s : State) (env : ℕ) : Type 0 where
  pub entries : Table
  pub registered : s.tables s.registry ≡ some entries
  pub holder : ℕ
  pub held : Block
  pub entry : table_get entries.entries (string jni_env_tag) ≡ userdata holder
  pub block : s.blocks holder ≡ some held
  pub content : held.content ≡ env

pub HasEnv-get_env : {s : State} {env : ℕ} → HasEnv s env → get_env_from_state s ≡ ok env s
HasEnv-get_env {s} h =
    get_env-present s h.entries h.registered h.holder h.held h.entry h.block
    ∙ ap (λ (n : ℕ). ok n s) h.content
