-- ===== src/Scheduler/Core/Standing.antt =====
-- Where one task of the scheduler stands: the invariant of backend/app/scheduler, task by task.
pub mod Keeps
use enterprise_ai_agent.Prelude.{
  ℕ, ◌+◌, ◌≤◌, ◌≡◌, Bool, true, false, Option, none, some, if◌then◌else◌,
}
use enterprise_ai_agent.Prelude.Int.{pos_part}
use enterprise_ai_agent.Prelude.Dict.{lookup}
use enterprise_ai_agent.Scheduler.Queue.{TaskQueue}
use enterprise_ai_agent.Scheduler.Core.{Scheduler}
use enterprise_ai_agent.Scheduler.Core.Records.{
  TaskRecord, Payload, is_terminal, is_pending, is_running,
}

-- Tests on a record that may be missing.
abbrev pub waits : Option TaskRecord → Bool
waits none = false
waits (some r) = is_pending r.status

abbrev pub runs : Option TaskRecord → Bool
runs none = false
runs (some r) = is_running r.status

abbrev pub ended : Option TaskRecord → Bool
ended none = false
ended (some r) = is_terminal r.status

abbrev pub flagged : Option TaskRecord → Bool
flagged none = false
flagged (some r) = r.cancelled

abbrev pub is_done : {Work : Type 0} → Option (Payload Work) → Bool
is_done none = false
is_done (some p) = p.done

abbrev pub known : {A : Type 0} → Option A → Bool
known none = false
known (some a) = true

abbrev pub retries : Option TaskRecord → ℕ
retries none = 0
retries (some r) = r.retry_count

abbrev pub allowed : Option TaskRecord → ℕ
allowed none = 0
allowed (some r) = pos_part r.max_retries

-- A task with its record, its payload, how often it waits in the queue, whether the queue blocks it,
-- how many workers have claimed it and have not begun, and how many are between the begin and the
-- end of its run.
pub record Standing {Work : Type 0} (r : Option TaskRecord) (p : Option (Payload Work)) (w : ℕ)
    (b : Bool) (c n : ℕ) : Type 0 where
  pub one_runner : n ≡ (if runs r then 1 else 0)
  pub one_place : waits r ≡ true → w + c ≡ 1
  pub not_queued : waits r ≡ false → w ≡ 0
  pub not_claimed : runs r ≡ true → c ≡ 0
  pub one_claim : c ≤ 1
  pub unknown : known r ≡ false → c ≡ 0
  pub unblocked : ended r ≡ false → b ≡ false
  pub uncancelled : waits r ≡ true → flagged r ≡ false
  pub done_at_end : is_done p ≡ ended r
  pub with_payload : known p ≡ known r
  pub retry_bound : retries r ≤ allowed r

-- The standing of the task `j` in a scheduler, among workers of which `c` and `n` have it in hand.
abbrev pub At : {tq : TaskQueue} {Work : Type 0} → Scheduler tq Work → ℕ → ℕ → ℕ → Type 0
At {tq} s j c n =
    Standing (lookup j s.records) (lookup j s.payloads) (tq.waiting s.queue j)
      (tq.blocked s.queue j) c n
