-- ===== src/Bridge.antt =====
-- The bridge between Lua and Java, jni/luajava/luajava.c.
pub mod Jni
pub mod Env
pub mod Objects
pub mod Raise
pub mod Index
pub mod Library
pub mod Open
pub mod Ready
pub mod Calls
pub mod Exports
