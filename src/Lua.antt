-- ===== src/Lua.antt =====
-- The Lua state that the bridge in jni/luajava works on, and the part of jni/lua/lapi.c that it
-- calls.
pub mod State
pub mod Entries
pub mod Index
pub mod Stack
pub mod Access
pub mod Reads
pub mod Heap
pub mod Fields
