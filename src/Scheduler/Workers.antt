-- ===== src/Scheduler/Workers.antt =====
-- The workers of backend/app/scheduler: `Dispatcher` of dispatcher.py, `Worker._loop` of worker.py
-- and `_on_worker_task` of scheduler.py, as interleaved steps.
--
-- Each step is one critical section under the scheduler's lock, or one call of the queue, which has
-- a lock of its own; between two steps of a worker the others and the clients may make theirs.
pub mod Invariant
pub mod Final
pub mod Waiting
use enterprise_ai_agent.Prelude.{
  ℕ, ◌+◌, ◌<◌, ◌≡◌, Bool, true, false, Option, none, some, List, [], ◌∷◌, ◌++◌, String, ◌==◌, max,
  if◌then◌else◌, length,
}
use enterprise_ai_agent.Prelude.Int.{ℤ}
use enterprise_ai_agent.Prelude.Dict.{lookup}
use enterprise_ai_agent.Scheduler.Queue.{TaskQueue}
use enterprise_ai_agent.Scheduler.Core.{
  Scheduler, submit, set_executor, cancel, begin, prepare, check_cancelled, conclude,
}
use enterprise_ai_agent.Scheduler.Core.Records.{Ran}

-- Where a worker stands in `_on_worker_task`: it has the id from the queue, it has marked the task
-- as running, the callable runs, or it has passed the check for a cancellation during the run.
pub data Stage : Type 0 where
  claimed started executing : ℕ → Stage
  checked : ℕ → Ran → Stage

-- The next section of a worker: none where `_on_worker_task` returns. `ran` is what
-- `TimeoutExecutor.run` returns, if it is called.
module _ {tq : TaskQueue} {Work : Type 0} where
  unfoldable pub advance : Stage → Ran → ℕ → Scheduler tq Work → Option Stage × Scheduler tq Work
  advance (claimed i) ran now s =
      let (go, s') = begin i now s in (if go then some (started i) else none, s')
  advance (started i) ran now s =
      let (go, s') = prepare i now s in (if go then some (executing i) else none, s')
  advance (executing i) ran now s =
      let (go, s') = check_cancelled i ran now s in (if go then some (checked i ran) else none, s')
  advance (checked i ran) _ now s = (none, conclude i ran now s)

unfoldable pub resume_with : Option Stage → List Stage → List Stage
resume_with none rest = rest
resume_with (some p) rest = p ∷ rest

-- The number of workers that `Dispatcher` starts.
unfoldable pub pool_size : ℕ → ℕ
pool_size worker_count = max 1 worker_count

-- The scheduler, and the workers that are busy.
pub record System (tq : TaskQueue) (Work : Type 0) : Type 0 where
  pub scheduler : Scheduler tq Work
  pub busy : List Stage
  pub worker_count : ℕ

-- The clients submit (with an id that is new), cancel and set the executor; an idle worker claims
-- what `pop` gives it; a busy worker makes its next section.
pub data Step {tq : TaskQueue} {Work : Type 0} : System tq Work → System tq Work → Type 0 where
  submits :
      (s : System tq Work) (i : ℕ) (work : Work) (priority : ℤ) (timeout_sec : Option ℤ)
      (max_retries : ℤ) (now : ℕ)
      → lookup i s.scheduler.records ≡ none
      → Step s
          (record s { scheduler = submit i work priority timeout_sec max_retries now s.scheduler })
  cancels :
      (s : System tq Work) (i now : ℕ)
      → Step s (record s { scheduler = (cancel i now s.scheduler).1 })
  configures : (s : System tq Work) → Step s (record s { scheduler = set_executor s.scheduler })
  claims :
      (s : System tq Work) (i : ℕ)
      → length s.busy < pool_size s.worker_count
      → (tq.pop s.scheduler.queue).0 ≡ some i
      → Step s (record s {
        scheduler = record (s.scheduler) { queue = (tq.pop s.scheduler.queue).1 };
        busy = claimed i ∷ s.busy;
      })
  waits :
      (s : System tq Work)
      → (tq.pop s.scheduler.queue).0 ≡ none
      → Step s
          (record s { scheduler = record (s.scheduler) { queue = (tq.pop s.scheduler.queue).1 } })
  works :
      (s : System tq Work) (left right : List Stage) (p : Stage) (ran : Ran) (now : ℕ)
      → s.busy ≡ left ++ (p ∷ right)
      → Step s (record s {
        scheduler = (advance p ran now s.scheduler).1;
        busy = left ++ resume_with (advance p ran now s.scheduler).0 right;
      })

pub data Reach {tq : TaskQueue} {Work : Type 0} (s : System tq Work) : System tq Work → Type 0 where
  here : Reach s s
  next : {t u : System tq Work} → Reach s t → Step t u → Reach s u
