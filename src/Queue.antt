-- ===== src/Queue.antt =====
-- The producer side of a dispatch queue: bridge/include/QueueCapacity.hpp and QueueBuffers.hpp.
pub mod Capacity
pub mod Buffers
mod Examples
