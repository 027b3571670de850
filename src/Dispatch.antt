-- ===== src/Dispatch.antt =====
-- The consumer side: bridge/include/DispatchBacklog.hpp, DispatchBudget.hpp and
-- QueueDispatchSchedule.hpp.
pub mod Backlog
pub mod Budget
pub mod Limits
pub mod Progress
pub mod Schedule
mod Examples
