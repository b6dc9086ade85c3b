-- ===== src/Scheduler/Workers/Waiting.antt =====
-- What `submit_and_wait` of backend/app/scheduler/scheduler.py reads once its event is set, while
-- clients and workers go on.
use enterprise_ai_agent.Prelude.{ℕ, ◌≡◌, Bool, true, some, arith, Option-cases, inl, inr}
use enterprise_ai_agent.Prelude.Dict.{lookup}
use enterprise_ai_agent.Scheduler.Queue.{TaskQueue}
use enterprise_ai_agent.Scheduler.Core.{get_record}
use enterprise_ai_agent.Scheduler.Core.Records.{TaskRecord, is_terminal}
use enterprise_ai_agent.Scheduler.Core.Standing.{ended}
use enterprise_ai_agent.Scheduler.Core.Client.{is_set, answer, wait_round}
use enterprise_ai_agent.Scheduler.Workers.{System, Reach}
use enterprise_ai_agent.Scheduler.Workers.Invariant.{IsSound}
use enterprise_ai_agent.Scheduler.Workers.Final.{Reach-Follows}

module _ {tq : TaskQueue} {Work : Type 0} where
  -- In a sound state the event of a task is set exactly if its record is there and final.
  is_set-ended :
      (s : System tq Work) (i : ℕ)
      → IsSound s
      → is_set i s.scheduler ≡ ended (lookup i s.scheduler.records)
  unfolding is_set
  is_set-ended s i h = ground (arith, (h.at i).done_at_end)

  final_record :
      (s : System tq Work) (i : ℕ)
      → ended (lookup i s.scheduler.records) ≡ true
      → (r : TaskRecord) × (lookup i s.scheduler.records ≡ some r) × (is_terminal r.status ≡ true)
  final_record s i e = elim (Option-cases (lookup i s.scheduler.records)) [
    | inl n ↦ absurd (ground (arith, n, e))
    | inr (r, n) ↦ (r, n, ground (arith, n, e))
  ]

  -- If the event of a task is set in a sound state, the task has a record with a final status, and in
  -- every later state a round of the wait that is woken, late or not, answers from that record and
  -- changes nothing: it cancels nothing and never finds the record missing.
  pub wait_round-final :
      {s t : System tq Work} (i now : ℕ)
      → IsSound s
      → Reach s t
      → is_set i s.scheduler ≡ true
      → (r : TaskRecord) × (lookup i s.scheduler.records ≡ some r)
        × (is_terminal r.status ≡ true)
        × ((late : Bool)
            → wait_round i now late true t.scheduler ≡ (some (answer (some r)), t.scheduler))
  unfolding wait_round get_record
  wait_round-final {s} {t} i now h reach set =
      let e : ended (lookup i s.scheduler.records) ≡ true =
        ground (arith, set, is_set-ended s i h) in
      let (r, found, final) = final_record s i e in
      let (later, follows) = Reach-Follows reach h i in
      let same : lookup i t.scheduler.records ≡ some r = ground (arith, follows.final e, found) in
      let still : is_set i t.scheduler ≡ true =
        ground (arith, is_set-ended t i later, same, final) in
      (r, found, final, λ late. ground (arith, same, still))
