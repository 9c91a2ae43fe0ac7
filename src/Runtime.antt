-- ===== src/Runtime.antt =====
-- crates/ughi-runtime: agents, their memory budget, the scheduler and the micro-kernel.
pub mod Error
pub mod AgentMemoryTracker
pub mod SystemMemoryTracker
pub mod AgentState
pub mod Agent
pub mod RuntimeMetrics
pub mod SchedulerEntry
pub mod BinaryHeap
pub mod Scheduler
pub mod Kernel
pub mod ListHeap
pub mod ResourceGovernor
pub mod Tests
pub mod SelfHealing
