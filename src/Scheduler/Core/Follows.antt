-- ===== src/Scheduler/Core/Follows.antt =====
-- What each critical section of the scheduler leaves of a task's record.
use enterprise_ai_agent.Prelude.{
  ℕ, ◌+◌, ◌≡◌, refl, Bool, true, false, Option, none, some, String, arith, Option-cases, inl, inr,
}
use enterprise_ai_agent.Prelude.Int.{ℤ}
use enterprise_ai_agent.Prelude.Dict.{lookup, lookup-insert}
use enterprise_ai_agent.Scheduler.Queue.{TaskQueue}
use enterprise_ai_agent.Scheduler.Core.{
  Scheduler, submit, finalize, cancel, cancel_record, handle_failure, requeue, can_retry, begin,
  prepare, check_cancelled, conclude_value, conclude,
}
use enterprise_ai_agent.Scheduler.Core.Records.{
  TaskRecord, TaskStatus, Returned, Ran, agent, pending, running, success, failed, timeout,
  cancelled, is_pending, is_running, is_terminal, or_text,
}
use enterprise_ai_agent.Scheduler.Core.Standing.{waits, runs, ended, flagged}

-- What no critical section does to the record of another task, nor to one whose status is final:
-- it changes it. A flag for cancellation stays, and a flagged task does not wait again.
pub record Follows (r r' : Option TaskRecord) : Type 0 where
  pub final : ended r ≡ true → r' ≡ r
  pub flag : flagged r ≡ true → (flagged r' ≡ true) × (waits r' ≡ true → waits r ≡ true)

pub Follows-refl : (r : Option TaskRecord) → Follows r r
Follows-refl r = record { final = λ _. refl; flag = λ h. (h, λ w. w) }

module _ {tq : TaskQueue} {Work : Type 0} (s : Scheduler tq Work) (i now j : ℕ) where
  abbrev pub After : Scheduler tq Work → Type 0
  After t = Follows (lookup j s.records) (lookup j t.records)

  finalize-After :
      (status : TaskStatus) (error : String) (result : Option Returned)
      → is_terminal status ≡ true
      → runs (lookup i s.records) ≡ true
      → After (finalize i status error result now s)
  unfolding finalize is_terminal is_running is_pending
  finalize-After status error result e r = elim (Option-cases (lookup i s.records)) [
    | inl a ↦ ground (arith, a)
    | inr (x, a) ↦ ground (
      arith,
      a,
      lookup-insert i
          (record x { status = status; error = error; result = result; finished_at = some now })
          s.records j,
    )
  ]

  handle_failure-After :
      (error : String) (forced : Bool)
      → runs (lookup i s.records) ≡ true
      → After (handle_failure i error forced now s)
  unfolding handle_failure requeue can_retry is_terminal is_running is_pending
  handle_failure-After error forced r = elim (Option-cases (lookup i s.records)) [
    | inl a ↦ ground (arith, a)
    | inr (x, a) ↦ ground (
      arith,
      a,
      lookup-insert i
          (record x { retry_count = x.retry_count + 1; status = pending; error = error }) s.records
          j,
      finalize-After timeout error none refl r,
      finalize-After failed error none refl r,
    )
  ]

  pub submit-After :
      (work : Work) (p : ℤ) (t : Option ℤ) (m : ℤ)
      → lookup i s.records ≡ none
      → After (submit i work p t m now s)
  unfolding submit
  submit-After work p t m a = ground (
    arith,
    a,
    lookup-insert i
        (record {
          task_id = i;
          status = pending;
          priority = p;
          max_retries = m;
          retry_count = 0;
          timeout_sec = t;
          error = "";
          result = none;
          cancelled = false;
          enqueued_at = now;
          started_at = none;
          finished_at = none;
        })
        s.records j,
  )

  pub cancel-After : After (cancel i now s).1
  unfolding cancel cancel_record is_terminal is_running is_pending
  cancel-After = elim (Option-cases (lookup i s.records)) [
    | inl a ↦ ground (arith, a)
    | inr (x, a) ↦ ground (
      arith,
      a,
      lookup-insert i (record x { cancelled = true }) s.records j,
      lookup-insert i (record x { cancelled = true; status = cancelled; finished_at = some now })
          s.records j,
    )
  ]

  pub begin-After : After (begin i now s).1
  unfolding begin is_terminal is_running is_pending
  begin-After = elim (Option-cases (lookup i s.records)) [
    | inl a ↦ ground (arith, a)
    | inr (x, a) ↦ ground (
      arith,
      a,
      lookup-insert i (record x { status = running; started_at = some now }) s.records j,
    )
  ]

  pub prepare-After : runs (lookup i s.records) ≡ true → After (prepare i now s).1
  unfolding prepare is_terminal
  prepare-After r = ground (
    arith,
    Follows-refl (lookup j s.records),
    finalize-After failed "scheduler executor not configured" none refl r,
    finalize-After cancelled "cancelled before run" none refl r,
  )

  pub check_cancelled-After :
      (ran : Ran) → runs (lookup i s.records) ≡ true → After (check_cancelled i ran now s).1
  unfolding check_cancelled is_terminal
  check_cancelled-After ran r = ground (
    arith,
    Follows-refl (lookup j s.records),
    finalize-After cancelled "cancelled during run" ran.value refl r,
  )

  conclude_value-After :
      (value : Option Returned) (message : String)
      → runs (lookup i s.records) ≡ true
      → After (conclude_value i value message now s)
  unfolding conclude_value is_terminal
  conclude_value-After (some (agent a)) message r = ground (
    arith,
    finalize-After success "" (some (agent a)) refl r,
    handle_failure-After (or_text a.content "agent returned success=False") false r,
  )
  conclude_value-After _ message r =
      handle_failure-After (or_text message "invalid agent result") false r

  pub conclude-After : (ran : Ran) → runs (lookup i s.records) ≡ true → After (conclude i ran now s)
  unfolding conclude
  conclude-After ran r = ground (
    arith,
    conclude_value-After ran.value ran.message r,
    handle_failure-After (or_text ran.message "timeout") true r,
    handle_failure-After (or_text ran.message "execution failed") false r,
  )

module _ {tq : TaskQueue} {Work : Type 0} where
  -- A task for which `cancel` returns True is flagged.
  pub cancel-flagged :
      (i now : ℕ) (s : Scheduler tq Work)
      → (cancel i now s).0 ≡ true
      → flagged (lookup i (cancel i now s).1.records) ≡ true
  unfolding cancel cancel_record is_terminal is_pending
  cancel-flagged i now s e = elim (Option-cases (lookup i s.records)) [
    | inl a ↦ ground (arith, a)
    | inr (x, a) ↦ ground (
      arith,
      a,
      lookup-insert i (record x { cancelled = true }) s.records i,
      lookup-insert i (record x { cancelled = true; status = cancelled; finished_at = some now })
          s.records i,
    )
  ]
