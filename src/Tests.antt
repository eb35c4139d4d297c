-- ===== src/Tests.antt =====
-- Concrete states, on which the theorems of the other modules are applied.
mod States
mod Lua
mod Bridge
mod Open
mod Library
mod Engine
mod Rules
mod Glitch
mod Wifi
mod Files
mod Saved
mod Runtime
mod Ring
mod Print
mod Screen
mod Start
mod Monitors
