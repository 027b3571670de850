-- ===== src/Bridge.antt =====
-- The mod of bridge/src/BridgeMod.cpp: what its Lua functions decode, and the state of its sessions.
mod Decode
mod LoopStart
mod Lifetime
mod State
mod Handlers
mod Calls
mod Session
mod Deliver
mod Update
mod Pipeline
mod Service
mod Examples
mod Runs
