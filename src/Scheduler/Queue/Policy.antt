-- ===== src/Scheduler/Queue/Policy.antt =====
-- `QueuePolicy` and `create_task_queue` of backend/app/scheduler/queue.py.
use enterprise_ai_agent.Scheduler.Queue.Interface.{TaskQueue}
use enterprise_ai_agent.Scheduler.Queue.Fifo.{fifo_queue}
use enterprise_ai_agent.Scheduler.Queue.Priority.Laws.{priority_queue}

pub data QueuePolicy : Type 0 where
  fifo priority : QueuePolicy

unfoldable pub create_task_queue : QueuePolicy → TaskQueue
create_task_queue fifo = fifo_queue
create_task_queue priority = priority_queue
