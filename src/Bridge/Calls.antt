-- ===== src/Bridge/Calls.antt =====
-- A call of a Java method from Lua, `object:method()`: objectIndex and objectIndexReturn of
-- jni/luajava/luajava.c on a frame that holds a proxy.
pub mod Methods
pub mod Classes
use sctx.Bridge.Index.{after_check, object_index}
use sctx.Bridge.Jni.{Java, deref, delete_local_ref}
use sctx.Bridge.Objects.Marks.{HasTable, marked, is_java_object-marked}
use sctx.Bridge.Raise.{state_index_tag, call_java}
use sctx.Bridge.Raise.Exceptions.{state_index-known}
use sctx.Bridge.Ready.{HasEnv, HasEnv-get_env, require_env-ok, object_of-live}
use sctx.Lua.Reads.{Names, to_userdata-block, is_string-value, to_string-text, read_block-held}
use sctx.Lua.State.{number, string, userdata, Block, State, ◌>>=◌, table_get}
use sctx.Prelude.{ℕ, ◌+◌, ℤ, pos, negsuc, String, ◌≡◌, ◌≢◌, refl, true, some}

-- A frame whose first value is the proxy `u` of the Java object `obj`, in a state with the id `id`.
pub record ProxyFrame (s : State) (id : ℤ) (u obj : ℕ) : Type 0 where
  pub env : ℕ
  pub has_env : HasEnv s env
  pub env_ne : env ≢ 0
  pub known : table_get has_env.entries.entries (string state_index_tag) ≡ number id
  pub first : Names s (pos 1) (userdata u)
  pub has_table : HasTable s (userdata u)
  pub mark : marked s (userdata u) ≡ true
  pub held : Block
  pub block : s.blocks u ≡ some held
  pub live : held.content ≢ 0
  pub found : deref s.jvm.globals held.content ≡ some obj

-- The state with the string that a handler makes for a call.
abbrev pub with_local : State → State
with_local s = record s { jvm = record s.jvm { locals = s.jvm.locals + 1 } }

module _ (java : Java) (s : State) (id : ℤ) (u obj : ℕ) (frame : ProxyFrame s id u obj) where
  -- On such a frame with a text on top, objectIndex asks checkField for that key of that object.
  pub object_index-check :
      (k : String)
      → Names s (negsuc 0) (string k)
      → object_index java s
        ≡ (call_java delete_local_ref (java.check_field id obj k) >>= after_check k) (with_local s)
  unfolding object_index
  object_index-check k top =
      rw
        (
          state_index-known java s frame.has_env.entries frame.has_env.registered id frame.known,
          is_string-value s (negsuc 0) (string k) top,
          to_string-text s (negsuc 0) java.conversion k top,
          is_java_object-marked s (pos 1) (userdata u) frame.first frame.has_table,
          frame.mark,
          require_env-ok frame.env s (HasEnv-get_env frame.has_env) frame.env_ne,
          to_userdata-block s (pos 1) u frame.first,
          read_block-held u frame.held (with_local s) frame.block,
          object_of-live frame.held.content obj (with_local s) frame.live frame.found,
        )
        refl
