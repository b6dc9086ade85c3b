-- ===== src/Scheduler/Core/Records.antt =====
-- The data of the scheduler: `TaskStatus` and `SchedulerTaskRecord` of queue.py, `AgentResult`,
-- `_TaskPayload`, and the answers of `TimeoutExecutor.run` in worker.py.
use text.Mathlib.Text.{◌==◌ as str_eq}
use enterprise_ai_agent.Prelude.{ℕ, Bool, true, false, Option, none, some, String, if◌then◌else◌}
use enterprise_ai_agent.Prelude.Int.{ℤ, pos, ltb_ℤ}

pub data TaskStatus : Type 0 where
  pending running success failed timeout cancelled : TaskStatus

-- The fields that the scheduler reads; the list of observations is handed on unread.
pub record AgentResult : Type 0 where
  pub success : Bool
  pub model : String
  pub content : String

-- What an executor returned: an `AgentResult`, or a value of another class.
pub data Returned : Type 0 where
  agent : AgentResult → Returned
  foreign : Returned

pub record TaskRecord : Type 0 where
  pub task_id : ℕ
  pub status : TaskStatus
  pub priority : ℤ
  pub max_retries : ℤ
  pub retry_count : ℕ
  pub timeout_sec : Option ℤ
  pub error : String
  pub result : Option Returned
  pub cancelled : Bool
  pub enqueued_at : ℕ
  pub started_at : Option ℕ
  pub finished_at : Option ℕ

-- `_TaskPayload`; `done` says that its event is set.
pub record Payload (Work : Type 0) : Type 0 where
  pub work : Work
  pub done : Bool

-- The statuses in which `cancel` finds nothing left to cancel.
unfoldable pub is_terminal : TaskStatus → Bool
is_terminal pending = false
is_terminal running = false
is_terminal _ = true

unfoldable pub is_pending : TaskStatus → Bool
is_pending pending = true
is_pending _ = false

unfoldable pub is_running : TaskStatus → Bool
is_running running = true
is_running _ = false

-- How the executed callable ends. `raised true` is a `TimeoutError`, which is also the class that
-- `Future.result` raises when the wait is over.
pub data Outcome : Type 0 where
  returned : Returned → Outcome
  raised : Bool → String → Outcome

-- `Some t` if `future.result` waits at most `t`.
unfoldable pub wait_limit : Option ℤ → Option ℤ
wait_limit none = none
wait_limit (some t) = if ltb_ℤ (pos 0) t then some t else none

-- What `TimeoutExecutor.run` returns: the value, the terminal status and the error message.
pub record Ran : Type 0 where
  pub value : Option Returned
  pub terminal : TaskStatus
  pub message : String

-- `TimeoutExecutor.run`. `in_time` says whether the callable ended before the limit, `timeout_text`
-- is the rendering of the message with the float in it.
unfoldable pub run_with_timeout : (ℤ → String) → Option ℤ → Bool → Outcome → Ran
unfolding wait_limit
run_with_timeout timeout_text timeout_sec in_time outcome = elim (wait_limit timeout_sec) [
  | none ↦ elim outcome [
    | returned v ↦ record { value = some v; terminal = success; message = "" }
    | raised _ e ↦ record { value = none; terminal = failed; message = e }
  ]
  | some t ↦
      if in_time
      then elim outcome [
        | returned v ↦ record { value = some v; terminal = success; message = "" }
        | raised late e ↦
            if late
            then record { value = none; terminal = timeout; message = timeout_text t }
            else record { value = none; terminal = failed; message = e }
      ]
      else record { value = none; terminal = timeout; message = timeout_text t }
]

-- Python's `a or b` on texts.
unfoldable pub or_text : String → String → String
or_text a b = if str_eq a "" then b else a
