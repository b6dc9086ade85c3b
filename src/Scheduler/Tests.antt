-- ===== src/Scheduler/Tests.antt =====
-- Runs of the scheduler on one task, and the theorems applied to them.
use enterprise_ai_agent.Prelude.{
  ℕ, ◌<◌, length, arith, ◌≡◌, refl, true, false, none, some, [], ◌∷◌, ◌++◌, Bool,
}
use enterprise_ai_agent.Prelude.Int.{pos}
use enterprise_ai_agent.Prelude.Dict.{lookup, insert}
use enterprise_ai_agent.Scheduler.Queue.Fifo.{fifo_queue}
use enterprise_ai_agent.Scheduler.Queue.Fifo as Fifo
use enterprise_ai_agent.Scheduler.Queue.Priority.{
  PriorityQueue, before, push, pop, pop_from, remove, contains, discard, heappush, add,
}
use enterprise_ai_agent.Scheduler.Queue.Priority.Order.{
  Handed, pop-Handed, pop-push-remove, Built, unused, pushed, dropped,
}
use enterprise_ai_agent.Scheduler.Core.{init, submit, cancel, begin}
use enterprise_ai_agent.Scheduler.Core.Records.{Ran, failed, TaskStatus, TaskRecord, is_terminal}
use enterprise_ai_agent.Scheduler.Core.Standing.{waits, flagged, ended}
use enterprise_ai_agent.Scheduler.Core.Client.{
  tasks_by_status, tasks_total, count_of, having, total, tasks_by_status_lem, is_set, answer,
  wait_round,
}
use enterprise_ai_agent.Scheduler.Workers.{
  System, pool_size, submits, cancels, claims, works, Reach, here, next, claimed, advance,
  resume_with,
}
use enterprise_ai_agent.Scheduler.Workers.Invariant.{IsSound, Reach-IsSound}
use enterprise_ai_agent.Scheduler.Workers.Final.{Reach-final, Reach-cancel}
use enterprise_ai_agent.Scheduler.Workers.Waiting.{wait_round-final}

-- Task 1 goes before task 2, but is removed.
abbrev two_items : PriorityQueue
two_items = (remove 1 (push 2 (pos 1) 0 (push 1 (pos 5) 0 (record { heap = []; removed = [] })))).1

two_items-Built : Built two_items
two_items-Built = dropped 1 (pushed 2 (pos 1) 0 (pushed 1 (pos 5) 0 unused))

two_items-pop : (pop two_items).0 ≡ some 2
unfolding pop pop_from contains discard push remove heappush before add
two_items-pop = refl

pop-Handed_example : Handed two_items.heap two_items.removed 2
pop-Handed_example = pop-Handed {q = two_items} 2 two_items-Built two_items-pop

pop-push-remove_example :
    (pop (push 3 (pos 1) 0 (remove 3 (record { heap = []; removed = [] })).1)).0 ≡ none
pop-push-remove_example = pop-push-remove 3 (pos 1) 0 (record { heap = []; removed = [] }) refl

abbrev start : System fifo_queue ℕ
start = record { scheduler = init; busy = []; worker_count = 2 }

abbrev submitted : System fifo_queue ℕ
submitted = record start { scheduler = submit 7 0 (pos 0) none (pos 1) 5 init }

no_task : lookup 7 start.scheduler.records ≡ none
unfolding init lookup
no_task = refl

to_submitted : Reach start submitted
to_submitted = next here (submits start 7 0 (pos 0) none (pos 1) 5 no_task)

abbrev took : System fifo_queue ℕ
took = record submitted {
  scheduler = record (submitted.scheduler) { queue = (Fifo.pop submitted.scheduler.queue).1 };
  busy = claimed 7 ∷ [];
}

queued : (Fifo.pop submitted.scheduler.queue).0 ≡ some 7
unfolding Fifo.pop Fifo.push submit init
queued = refl

room : length submitted.busy < pool_size submitted.worker_count
unfolding pool_size
room = omega arith

to_took : Reach start took
to_took = next to_submitted (claims submitted 7 room queued)

abbrev no_result : Ran
no_result = record { value = none; terminal = failed; message = "" }

abbrev began : System fifo_queue ℕ
began = record took {
  scheduler = (advance (claimed 7) no_result 6 took.scheduler).1;
  busy = [] ++ resume_with (advance (claimed 7) no_result 6 took.scheduler).0 [];
}

to_began : Reach start began
to_began = next to_took (works took [] [] (claimed 7) no_result 6 refl)

Reach-IsSound_example : IsSound began
Reach-IsSound_example = Reach-IsSound 2 to_began

abbrev called_off : System fifo_queue ℕ
called_off = record submitted { scheduler = (cancel 7 6 submitted.scheduler).1 }

to_called_off : Reach start called_off
to_called_off = next to_submitted (cancels submitted 7 6)

abbrev called_off_again : System fifo_queue ℕ
called_off_again = record called_off { scheduler = (cancel 7 9 called_off.scheduler).1 }

called_off-ended : ended (lookup 7 called_off.scheduler.records) ≡ true
unfolding cancel submit init lookup insert
called_off-ended = refl

Reach-final_example :
    lookup 7 called_off_again.scheduler.records ≡ lookup 7 called_off.scheduler.records
Reach-final_example =
    Reach-final {s = called_off} {t = called_off_again} 7 (Reach-IsSound 2 to_called_off)
      (next here (cancels called_off 7 9)) called_off-ended

cancelled_first : (cancel 7 6 began.scheduler).0 ≡ true
unfolding cancel submit init lookup insert begin advance
cancelled_first = refl

Reach-cancel_example :
    (flagged (lookup 7 (cancel 7 6 began.scheduler).1.records) ≡ true)
    × (waits (lookup 7 (cancel 7 6 began.scheduler).1.records) ≡ false)
Reach-cancel_example = Reach-cancel began 7 6 (Reach-IsSound 2 to_began) cancelled_first here

tasks_by_status_lem_example :
    ((st : TaskStatus)
      → count_of st (tasks_by_status submitted.scheduler) ≡ having st submitted.scheduler.records)
    × (total (tasks_by_status submitted.scheduler) ≡ tasks_total submitted.scheduler)
tasks_by_status_lem_example = tasks_by_status_lem submitted.scheduler

called_off-set : is_set 7 called_off.scheduler ≡ true
unfolding is_set cancel submit init lookup insert
called_off-set = refl

wait_round-final_example :
    (r : TaskRecord) × (lookup 7 called_off.scheduler.records ≡ some r)
    × (is_terminal r.status ≡ true)
    × ((late : Bool)
        → wait_round 7 20 late true called_off_again.scheduler
          ≡ (some (answer (some r)), called_off_again.scheduler))
wait_round-final_example =
    wait_round-final {s = called_off} {t = called_off_again} 7 20 (Reach-IsSound 2 to_called_off)
      (next here (cancels called_off 7 9)) called_off-set
