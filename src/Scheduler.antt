-- ===== src/Scheduler.antt =====
-- backend/app/scheduler: the task queues, the scheduler and its workers.
pub mod Queue
pub mod Core
pub mod Workers
pub mod Tests
