-- ===== src/Scheduler/Queue.antt =====
-- backend/app/scheduler/queue.py: the abstract task queue, its FIFO and its priority version.
--
-- A task id is the number that its sixteen hexadecimal digits write (`uuid4().hex[:16]`), which
-- orders ids as the strings are ordered. A time is a number of clock ticks. The condition variable
-- is not a part of the state: `pop` on an empty queue is the wait that times out and returns None.
mod Interface
pub mod Fifo
pub mod Priority
pub mod Policy
pub use Interface.{TaskQueue}
