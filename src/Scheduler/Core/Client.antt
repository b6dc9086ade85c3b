-- ===== src/Scheduler/Core/Client.antt =====
-- What a client of the scheduler sees: `submit_and_wait` after its wait, and `dashboard_snapshot`, of
-- backend/app/scheduler/scheduler.py.
use Prim.Native.String.{◌++◌ as str_append}
use enterprise_ai_agent.Prelude.{
  ℕ, ◌+◌, ◌≡◌, Bool, true, false, Option, none, some, List, [], ◌∷◌, String, length, if◌then◌else◌,
  arith,
}
use enterprise_ai_agent.Prelude.Dict.{Dict, lookup}
use enterprise_ai_agent.Scheduler.Queue.{TaskQueue}
use enterprise_ai_agent.Scheduler.Core.{Scheduler, cancel, get_record}
use enterprise_ai_agent.Scheduler.Core.Records.{
  TaskStatus, pending, running, success, failed, timeout, cancelled, AgentResult, agent, TaskRecord,
  or_text,
}

-- `TaskStatus.value`
unfoldable pub status_value : TaskStatus → String
status_value pending = "pending"
status_value running = "running"
status_value success = "success"
status_value failed = "failed"
status_value timeout = "timeout"
status_value cancelled = "cancelled"

abbrev pub refused : String → AgentResult
refused content = record { success = false; model = "scheduler"; content = content }

-- How `submit_and_wait` answers from the task's record once the event is set.
unfoldable pub answer : Option TaskRecord → AgentResult
unfolding or_text status_value
answer none = refused "task record missing"
answer (some r) =
    let told =
      refused (or_text r.error (str_append "task ended with status " (status_value r.status))) in
    elim r.status [ success ↦ elim r.result [ some (agent a) ↦ a | _ ↦ told ] | _ ↦ told ]

-- One round of the waiting loop: it ends with an answer, or the next round is made. `late` says that
-- no time remains, and `woken` that `done_event.wait` returned True.
module _ {tq : TaskQueue} {Work : Type 0} where
  unfoldable pub is_set : ℕ → Scheduler tq Work → Bool
  is_set task_id s = elim (lookup task_id s.payloads) [ none ↦ false | some p ↦ p.done ]

  unfoldable pub wait_round :
      (task_id now : ℕ) (late woken : Bool)
      → Scheduler tq Work
      → Option AgentResult × Scheduler tq Work
  unfolding is_set answer get_record
  wait_round task_id now late woken s =
      if late
      then if is_set task_id s
        then (if woken then some (answer (get_record task_id s)) else none, s)
        else (some (refused "submit_and_wait timed out"), (cancel task_id now s).1)
      else (if woken then some (answer (get_record task_id s)) else none, s)

-- `counts[status] = counts.get(status, 0) + 1`, with the status for its value.
unfoldable pub same_status : TaskStatus → TaskStatus → Bool
same_status pending pending = true
same_status running running = true
same_status success success = true
same_status failed failed = true
same_status timeout timeout = true
same_status cancelled cancelled = true
same_status _ _ = false

unfoldable pub bump : TaskStatus → List (TaskStatus × ℕ) → List (TaskStatus × ℕ)
bump st [] = (st, 1) ∷ []
bump st ((k, n) ∷ counts) =
    if same_status k st then (k, n + 1) ∷ counts else (k, n) ∷ bump st counts

count_from : List (TaskStatus × ℕ) → Dict TaskRecord → List (TaskStatus × ℕ)
count_from counts [] = counts
count_from counts ((i, r) ∷ records) = count_from (bump r.status counts) records

-- `tasks_by_status` and `tasks_total` of `dashboard_snapshot`.
module _ {tq : TaskQueue} {Work : Type 0} where
  unfoldable pub tasks_by_status : Scheduler tq Work → List (TaskStatus × ℕ)
  unfolding bump count_from
  tasks_by_status s = count_from [] s.records

  unfoldable pub tasks_total : Scheduler tq Work → ℕ
  tasks_total s = length s.records

abbrev pub total : List (TaskStatus × ℕ) → ℕ
total [] = 0
total ((st, n) ∷ counts) = n + total counts

unfoldable pub count_of : TaskStatus → List (TaskStatus × ℕ) → ℕ
count_of st [] = 0
count_of st ((k, n) ∷ counts) = if same_status k st then n else count_of st counts

-- How many records have a status.
unfoldable pub having : TaskStatus → Dict TaskRecord → ℕ
having st [] = 0
having st ((i, r) ∷ records) =
    if same_status r.status st then having st records + 1 else having st records

same_status-eq : (k m : TaskStatus) → same_status k m ≡ true → k ≡ m
unfolding same_status
same_status-eq pending m h = ground arith
same_status-eq _ m h = ground arith

same_status_refl : (k : TaskStatus) → same_status k k ≡ true
unfolding same_status
same_status_refl pending = ground arith
same_status_refl _ = ground arith

total-bump : (st : TaskStatus) (c : List (TaskStatus × ℕ)) → total (bump st c) ≡ total c + 1
unfolding bump
total-bump st [] = omega arith
total-bump st ((k, n) ∷ c) = ground (arith, total-bump st c)

total-count_from :
    (c : List (TaskStatus × ℕ)) (d : Dict TaskRecord) → total (count_from c d) ≡ total c + length d
unfolding count_from
total-count_from c [] = omega arith
total-count_from c ((i, r) ∷ d) =
    omega (arith, total-count_from (bump r.status c) d, total-bump r.status c)

count_of-bump :
    (st k : TaskStatus) (c : List (TaskStatus × ℕ))
    → count_of st (bump k c) ≡ (if same_status k st then count_of st c + 1 else count_of st c)
unfolding bump count_of
count_of-bump st k [] = ground arith
count_of-bump st k ((m, n) ∷ c) = ground (
  arith,
  count_of-bump st k c,
  same_status-eq m k,
  same_status-eq m st,
  same_status-eq k st,
  same_status_refl k,
)

count_of-count_from :
    (st : TaskStatus) (c : List (TaskStatus × ℕ)) (d : Dict TaskRecord)
    → count_of st (count_from c d) ≡ count_of st c + having st d
unfolding count_from having count_of
count_of-count_from st c [] = omega arith
count_of-count_from st c ((i, r) ∷ d) =
    ground (arith, count_of-count_from st (bump r.status c) d, count_of-bump st r.status c)

-- In the snapshot the number under each status is the number of records with that status, and the
-- numbers add up to `tasks_total`.
pub tasks_by_status_lem :
    {tq : TaskQueue} {Work : Type 0} (s : Scheduler tq Work)
    → ((st : TaskStatus) → count_of st (tasks_by_status s) ≡ having st s.records)
      × (total (tasks_by_status s) ≡ tasks_total s)
unfolding tasks_by_status tasks_total count_of
tasks_by_status_lem s = (
  (λ st. ground (arith, count_of-count_from st [] s.records)),
  omega (arith, total-count_from [] s.records),
)
