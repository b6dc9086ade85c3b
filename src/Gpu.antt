-- ===== src/Gpu.antt =====
-- backend/app/gpu: the allocation of devices, and the scheduler that waits for one.
pub mod Types
pub mod Pick
pub mod Allocator
pub mod Scheduler
mod Tests
