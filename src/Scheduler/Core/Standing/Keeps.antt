-- ===== src/Scheduler/Core/Standing/Keeps.antt =====
-- Each critical section of the scheduler keeps every task's standing.
use enterprise_ai_agent.Prelude.{
  ℕ, ◌+◌, ◌-◌, ◌≤◌, ◌≡◌, refl, Bool, ◌&&◌, true, false, Option, none, some, String, ◌==◌,
  if◌then◌else◌, arith, Bool-cases, Option-cases, inl, inr,
}
use enterprise_ai_agent.Prelude.Int.{ℤ}
use enterprise_ai_agent.Prelude.Dict.{lookup, lookup-insert}
use enterprise_ai_agent.Scheduler.Queue.{TaskQueue}
use enterprise_ai_agent.Scheduler.Core.{
  Scheduler, submit, set_done, finalize, cancel, cancel_record, handle_failure, requeue, can_retry,
  begin, prepare, check_cancelled, conclude_value, conclude,
}
use enterprise_ai_agent.Scheduler.Core.Standing.{At, runs}
use enterprise_ai_agent.Scheduler.Core.Records.{
  TaskStatus, pending, running, success, failed, timeout, cancelled, TaskRecord, Returned, agent,
  Ran, or_text, is_terminal, is_pending, is_running,
}

module _ {tq : TaskQueue} {Work : Type 0} (s : Scheduler tq Work) (i now j c n : ℕ) where
  pub finalize-At :
      (status : TaskStatus) (error : String) (result : Option Returned)
      → is_terminal status ≡ true
      → runs (lookup i s.records) ≡ true
      → At s j c n
      → At (finalize i status error result now s) j c (if i == j then 0 else n)
  unfolding finalize set_done is_terminal is_running is_pending
  finalize-At status error result e r h = elim (Option-cases (lookup i s.records)) [
    | inl a ↦ ground (arith, a)
    | inr (x, a) ↦ elim (Option-cases (lookup i s.payloads)) [
      | inl b ↦ ground (
        arith,
        a,
        b,
        lookup-insert i
            (record x { status = status; error = error; result = result; finished_at = some now })
            s.records j,
      )
      | inr (y, b) ↦ ground (
        arith,
        a,
        b,
        lookup-insert i
            (record x { status = status; error = error; result = result; finished_at = some now })
            s.records j,
        lookup-insert i (record y { done = true }) s.payloads j,
      )
    ]
  ]

  requeue-At :
      (x : TaskRecord) (error : String)
      → lookup i s.records ≡ some x
      → is_running x.status ≡ true
      → can_retry x ≡ true
      → At s i 0 1
      → At s j c n
      → At (requeue i x error now s) j c (if i == j then 0 else n)
  unfolding requeue can_retry is_terminal is_running is_pending
  requeue-At x error a r k hi h = ground (
    arith,
    lookup-insert i (record x { retry_count = x.retry_count + 1; status = pending; error = error })
        s.records j,
    tq.waiting-push i x.priority now s.queue j (hi.unblocked (ground arith)),
    tq.blocked-push i x.priority now s.queue j,
  )

  pub handle_failure-At :
      (error : String) (forced : Bool)
      → runs (lookup i s.records) ≡ true
      → At s i 0 1
      → At s j c n
      → At (handle_failure i error forced now s) j c (if i == j then 0 else n)
  unfolding handle_failure is_terminal
  handle_failure-At error forced r hi h = elim (Option-cases (lookup i s.records)) [
    | inl a ↦ ground (arith, a)
    | inr (x, a) ↦ ground (
      arith,
      a,
      requeue-At x error a (ground arith),
      finalize-At timeout error none refl r h,
      finalize-At failed error none refl r h,
    )
  ]

  pub submit-At :
      (work : Work) (p : ℤ) (t : Option ℤ) (m : ℤ)
      → lookup i s.records ≡ none
      → {a b : ℕ} → At s i a b
      → At s j c n
      → At (submit i work p t m now s) j c n
  unfolding submit is_terminal is_running is_pending
  submit-At work p t m a hi h = ground (
    arith,
    lookup-insert i
        (record {
          task_id = i;
          status = pending;
          priority = p;
          max_retries = m;
          retry_count = 0;
          timeout_sec = t;
          error = "";
          result = none;
          cancelled = false;
          enqueued_at = now;
          started_at = none;
          finished_at = none;
        })
        s.records j,
    lookup-insert i (record { work = work; done = false }) s.payloads j,
    tq.waiting-push i p now s.queue j (hi.unblocked (ground arith)),
    tq.blocked-push i p now s.queue j,
  )

  cancel_record-At :
      (x : TaskRecord)
      → lookup i s.records ≡ some x
      → {a b : ℕ} → At s i a b
      → At s j c n
      → At (cancel_record i x now s).1 j c n
  unfolding cancel_record set_done is_terminal is_running is_pending
  cancel_record-At x e hi h = elim (Bool-cases (is_pending x.status)) [
    | inl k ↦ elim (Option-cases (lookup i s.payloads)) [
      | inl l ↦ ground (arith, e, l, k, hi.with_payload)
      | inr (y, l) ↦ ground (
        arith,
        e,
        l,
        k,
        lookup-insert i (record x { cancelled = true; status = cancelled; finished_at = some now })
            s.records j,
        lookup-insert i (record y { done = true }) s.payloads j,
        tq.waiting-remove i s.queue j (hi.unblocked (ground arith)),
        tq.blocked-remove i s.queue j,
      )
    ]
    | inr k ↦ ground (arith, e, k, lookup-insert i (record x { cancelled = true }) s.records j)
  ]

  pub cancel-At : {a b : ℕ} → At s i a b → At s j c n → At (cancel i now s).1 j c n
  unfolding cancel
  cancel-At hi h = elim (Option-cases (lookup i s.records)) [
    | inl a ↦ rw (a, cancel) h
    | inr (x, a) ↦ rw (a, cancel) (cancel_record-At x a hi h)
  ]

  pub begin-At :
      (if i == j then 1 else 0) ≤ c
      → At s j c n
      → At
          (begin i now s).1
          j
          (if i == j then c - 1 else c)
          (if (i == j) && (begin i now s).0 then n + 1 else n)
  unfolding begin is_terminal is_running is_pending
  begin-At k h = elim (Option-cases (lookup i s.records)) [
    | inl a ↦ ground (arith, a)
    | inr (x, a) ↦ elim (Option-cases (lookup i s.payloads)) [
      | inl b ↦ ground (arith, a, b)
      | inr (y, b) ↦ ground (
        arith,
        a,
        b,
        lookup-insert i (record x { status = running; started_at = some now }) s.records j,
      )
    ]
  ]

  runs_in_hand : At s i 0 1 → runs (lookup i s.records) ≡ true
  runs_in_hand hi = ground (arith, hi.one_runner)

  pub prepare-At :
      At s i 0 1
      → At s j c n
      → At (prepare i now s).1 j c (if (prepare i now s).0 then n else if i == j then 0 else n)
  unfolding prepare is_terminal
  prepare-At hi h = ground (
    arith,
    finalize-At failed "scheduler executor not configured" none refl (runs_in_hand hi) h,
    finalize-At cancelled "cancelled before run" none refl (runs_in_hand hi) h,
  )

  pub check_cancelled-At :
      (ran : Ran)
      → At s i 0 1
      → At s j c n
      → At
          (check_cancelled i ran now s).1
          j
          c
          (if (check_cancelled i ran now s).0 then n else if i == j then 0 else n)
  unfolding check_cancelled is_terminal
  check_cancelled-At ran hi h = ground (
    arith,
    runs_in_hand hi,
    finalize-At cancelled "cancelled during run" ran.value refl (runs_in_hand hi) h,
  )

  conclude_value-At :
      (value : Option Returned) (message : String)
      → At s i 0 1
      → At s j c n
      → At (conclude_value i value message now s) j c (if i == j then 0 else n)
  unfolding conclude_value is_terminal
  conclude_value-At (some (agent a)) message hi h = ground (
    arith,
    finalize-At success "" (some (agent a)) refl (runs_in_hand hi) h,
    handle_failure-At (or_text a.content "agent returned success=False") false (runs_in_hand hi) hi
        h,
  )
  conclude_value-At _ message hi h =
      handle_failure-At (or_text message "invalid agent result") false (runs_in_hand hi) hi h

  pub conclude-At :
      (ran : Ran)
      → At s i 0 1
      → At s j c n
      → At (conclude i ran now s) j c (if i == j then 0 else n)
  unfolding conclude
  conclude-At ran hi h =
      let failure = λ (m : String) (forced : Bool).
        handle_failure-At (or_text ran.message m) forced (runs_in_hand hi) hi h in
      ground (
        arith,
        conclude_value-At ran.value ran.message hi h,
        failure "timeout" true,
        failure "execution failed" false,
      )
