-- ===== src/Backend.antt =====
-- EnhancedInputBackend: bridge/include/EnhancedInputBackend.hpp, bridge/src/EnhancedInputBackend.cpp
-- and the weak references of bridge/include/UE4SSABI.hpp.
pub mod Engine
pub mod State
pub mod Trace
pub mod Faults
pub mod Execute
pub mod Native
pub mod Unsubscribe
pub mod Target
pub mod Subscribe
pub mod Drain
pub mod Inspect
mod Examples
