-- ===== src/Bridge/Env.antt =====
-- getEnvFromState and pushJNIEnv of jni/luajava/luajava.c: the JNIEnv pointer of the running
-- thread, kept in a userdata in the registry.
pub mod RoundTrip
use sctx.Prelude.{ℕ, String, negsuc, not, if◌then◌else◌}
use sctx.Lua.Access.{is_nil, is_userdata, to_userdata, block}
use sctx.Lua.Heap.{raw_get, raw_set, new_userdata, write_block, read_block}
use sctx.Lua.Index.{registry_index}
use sctx.Lua.Stack.{push_string, pop, insert}
use sctx.Lua.State.{Lua, pure, ◌>>=◌, ◌>>◌}

-- LUAJAVAJNIENVTAG
abbrev pub jni_env_tag : String
jni_env_tag = "__JNIEnv"

-- The pointer, or 0 for NULL.
unfoldable pub get_env_from_state : Lua ℕ
unfolding push_string raw_get is_userdata to_userdata pop read_block
get_env_from_state = do
  push_string jni_env_tag
  raw_get registry_index
  found ← is_userdata (negsuc 0)
  if not found then (do pop 1; pure 0) else do env ← to_userdata (negsuc 0); pop 1; read_block env

unfoldable pub push_jni_env : ℕ → Lua (Unit {0})
unfolding push_string raw_get is_nil to_userdata write_block pop new_userdata insert raw_set
push_jni_env env = do
  push_string jni_env_tag
  raw_get registry_index
  absent ← is_nil (negsuc 0)
  if not absent then (do p ← to_userdata (negsuc 0); write_block p env; pop 1) else do
    pop 1
    u ← new_userdata
    write_block (block u) env
    push_string jni_env_tag
    insert (negsuc 1)
    raw_set registry_index
