-- ===== src/Context.antt =====
-- The context inference of the application, src/org/sctx.
pub mod Text
pub mod Engine
pub mod Smart
pub mod Wifi
pub mod Runtime
pub mod Screen
pub mod Start
pub mod Stop
pub mod Motion
pub mod Sound
