-- ===== src/Scheduler/Core.antt =====
-- `AgentScheduler` of backend/app/scheduler/scheduler.py.
--
-- Each function here is the body of one critical section or of one method; `now` stands for what
-- `time.time()` returns, and the new task id of `submit` for `uuid4().hex[:16]`. The scheduler is
-- generic in its queue, as the source is, and in `Work`, the agent's task with its configuration
-- and arguments, which the scheduler only hands on.
pub mod Records
pub mod Standing
pub mod Client
pub mod Follows
use enterprise_ai_agent.Prelude.{
  ℕ, ◌+◌, Bool, true, false, ◌&&◌, not, Option, none, some, List, [], String, if◌then◌else◌, length,
}
use enterprise_ai_agent.Prelude.Int.{ℤ, pos, ltb_ℤ}
use enterprise_ai_agent.Prelude.Dict.{Dict, lookup, insert}
use enterprise_ai_agent.Scheduler.Queue.{TaskQueue}
use Records.{
  TaskStatus, pending, running, success, failed, timeout, cancelled, AgentResult, Returned, agent,
  foreign, TaskRecord, Payload, is_terminal, is_pending, Ran, or_text,
}

-- `_records`, `_payloads`, `_queue`, and whether `set_executor` was called.
pub record Scheduler (tq : TaskQueue) (Work : Type 0) : Type 0 where
  pub records : Dict TaskRecord
  pub payloads : Dict (Payload Work)
  pub queue : tq.Q
  pub executor_set : Bool

-- `payload.done_event.set()`, if there is a payload.
unfoldable pub set_done : {Work : Type 0} → ℕ → Dict (Payload Work) → Dict (Payload Work)
set_done task_id payloads = elim (lookup task_id payloads) [
  | none ↦ payloads
  | some p ↦ insert task_id (record p { done = true }) payloads
]

can_retry : TaskRecord → Bool
can_retry r = ltb_ℤ (pos r.retry_count) r.max_retries && not r.cancelled

is_timeout : TaskStatus → Bool
is_timeout timeout = true
is_timeout _ = false

module _ {tq : TaskQueue} {Work : Type 0} where
  unfoldable pub init : Scheduler tq Work
  init = record { records = []; payloads = []; queue = tq.empty; executor_set = false }

  unfoldable pub set_executor : Scheduler tq Work → Scheduler tq Work
  set_executor s = record s { executor_set = true }

  unfoldable pub submit :
      (task_id : ℕ) (work : Work) (priority : ℤ) (timeout_sec : Option ℤ) (max_retries : ℤ)
      (now : ℕ)
      → Scheduler tq Work
      → Scheduler tq Work
  submit task_id work priority timeout_sec max_retries now s = record s {
    records =
        insert task_id
          (record {
            task_id = task_id;
            status = pending;
            priority = priority;
            max_retries = max_retries;
            retry_count = 0;
            timeout_sec = timeout_sec;
            error = "";
            result = none;
            cancelled = false;
            enqueued_at = now;
            started_at = none;
            finished_at = none;
          })
          s.records;
    payloads = insert task_id (record { work = work; done = false }) s.payloads;
    queue = tq.push task_id priority now s.queue;
  }

  -- `_finalize`
  unfoldable pub finalize :
      (task_id : ℕ) (status : TaskStatus) (error : String) (result : Option Returned) (now : ℕ)
      → Scheduler tq Work
      → Scheduler tq Work
  unfolding set_done
  finalize task_id status error result now s = elim (lookup task_id s.records) [
    | none ↦ s
    | some r ↦ record s {
      records =
          insert task_id
            (record r { status = status; error = error; result = result; finished_at = some now })
            s.records;
      payloads = set_done task_id s.payloads;
    }
  ]

  cancel_record : ℕ → TaskRecord → ℕ → Scheduler tq Work → Bool × Scheduler tq Work
  unfolding is_terminal is_pending set_done
  cancel_record task_id r now s =
      if is_terminal r.status
      then (false, s)
      else if is_pending r.status
      then (
        true,
        record s {
          records =
              insert task_id
                (record r { cancelled = true; status = cancelled; finished_at = some now })
                s.records;
          payloads = set_done task_id s.payloads;
          queue = (tq.remove task_id s.queue).1;
        },
      )
      else (true, record s { records = insert task_id (record r { cancelled = true }) s.records })

  unfoldable pub cancel : ℕ → ℕ → Scheduler tq Work → Bool × Scheduler tq Work
  unfolding cancel_record
  cancel task_id now s = elim (lookup task_id s.records) [
    | none ↦ (false, s)
    | some r ↦ cancel_record task_id r now s
  ]

  -- A copy of the record, so that the caller shares nothing with the scheduler.
  unfoldable pub get_record : ℕ → Scheduler tq Work → Option TaskRecord
  get_record task_id s = lookup task_id s.records

  -- The retry of `_handle_failure`: back to PENDING and into the queue.
  requeue : ℕ → TaskRecord → String → ℕ → Scheduler tq Work → Scheduler tq Work
  requeue task_id r error now s = record s {
    records =
        insert task_id
          (record r { retry_count = r.retry_count + 1; status = pending; error = error }) s.records;
    queue = tq.push task_id r.priority now s.queue;
  }

  -- `_handle_failure`; `forced` says that the forced status is TIMEOUT.
  unfoldable pub handle_failure : ℕ → String → Bool → ℕ → Scheduler tq Work → Scheduler tq Work
  unfolding requeue can_retry finalize
  handle_failure task_id error forced now s = elim (lookup task_id s.records) [
    | none ↦ s
    | some r ↦
        if forced
        then if can_retry r
          then requeue task_id r error now s
          else finalize task_id timeout error none now s
        else if can_retry r
        then requeue task_id r error now s
        else finalize task_id failed error none now s
  ]

  -- The first critical section of `_on_worker_task`: false if the worker returns at once.
  unfoldable pub begin : ℕ → ℕ → Scheduler tq Work → Bool × Scheduler tq Work
  unfolding is_pending
  begin task_id now s = elim (lookup task_id s.records) [
    | none ↦ (false, s)
    | some r ↦ elim (lookup task_id s.payloads) [
      | none ↦ (false, s)
      | some p ↦
          if r.cancelled
          then (false, s)
          else if is_pending r.status
          then (
            true,
            record s {
              records =
                  insert task_id (record r { status = running; started_at = some now }) s.records;
            },
          )
          else (false, s)
    ]
  ]

  -- What follows it: the executor may be missing, or the task cancelled meanwhile. True if the task
  -- is run.
  unfoldable pub prepare : ℕ → ℕ → Scheduler tq Work → Bool × Scheduler tq Work
  unfolding finalize
  prepare task_id now s =
      if s.executor_set
      then elim (lookup task_id s.records) [
        | none ↦ (true, s)
        | some r ↦
            if r.cancelled
            then (false, finalize task_id cancelled "cancelled before run" none now s)
            else (true, s)
      ]
      else (false, finalize task_id failed "scheduler executor not configured" none now s)

  -- The critical section after the run. True if the worker goes on to the result.
  unfoldable pub check_cancelled : ℕ → Ran → ℕ → Scheduler tq Work → Bool × Scheduler tq Work
  unfolding finalize is_timeout
  check_cancelled task_id ran now s = elim (lookup task_id s.records) [
    | none ↦ (false, s)
    | some r ↦
        if r.cancelled && not (is_timeout ran.terminal)
        then (false, finalize task_id cancelled "cancelled during run" ran.value now s)
        else (true, s)
  ]

  -- The branch of `_on_worker_task` for a run that returned a value.
  conclude_value : ℕ → Option Returned → String → ℕ → Scheduler tq Work → Scheduler tq Work
  unfolding finalize handle_failure or_text
  conclude_value task_id (some (agent a)) message now s =
      if a.success
      then finalize task_id success "" (some (agent a)) now s
      else handle_failure task_id (or_text a.content "agent returned success=False") false now s
  conclude_value task_id _ message now s =
      handle_failure task_id (or_text message "invalid agent result") false now s

  -- The rest of `_on_worker_task`, by the terminal status of the run.
  unfoldable pub conclude : ℕ → Ran → ℕ → Scheduler tq Work → Scheduler tq Work
  unfolding conclude_value handle_failure or_text
  conclude task_id ran now s = elim ran.terminal [
    | success ↦ conclude_value task_id ran.value ran.message now s
    | timeout ↦ handle_failure task_id (or_text ran.message "timeout") true now s
    | other ↦ handle_failure task_id (or_text ran.message "execution failed") false now s
  ]
