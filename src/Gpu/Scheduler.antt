-- ===== src/Gpu/Scheduler.antt =====
-- `GPUScheduler` of backend/app/gpu/scheduler.py, over the allocator.
--
-- Times are clock ticks. What the n-th turn of the waiting loop meets is given by functions of n: the
-- clock at its check, the devices that are scanned, and the ids for the records. The client's own
-- event is left out where only its thread waits for it.
pub mod Waits
use enterprise_ai_agent.Prelude.{
  ℕ, zero, suc, ◌+◌, ltb, Bool, true, false, Option, none, some, List, [], ◌∷◌, ◌++◌, String,
  length, if◌then◌else◌,
}
use enterprise_ai_agent.Prelude.Text.{str_eq}
use enterprise_ai_agent.Gpu.Types.{GpuDeviceState, GpuAllocationRequest, GpuAllocationResult}
use enterprise_ai_agent.Gpu.Allocator.{Allocations, allocate, failed_result}

pub record ScheduledJob : Type 0 where
  pub job_id : String
  pub request : GpuAllocationRequest
  pub enqueued_at : ℕ
  pub result : Option GpuAllocationResult
  pub is_done : Bool

pub record GpuScheduler : Type 0 where
  pub queue : List ScheduledJob
  pub history_count : ℕ
  pub allocations : Allocations

-- What the turns of the waiting loop meet.
pub record Turns : Type 0 where
  pub clock : ℕ → ℕ
  pub scanned : ℕ → List GpuDeviceState
  pub uuid : ℕ → ℕ → String
  pub render : ℕ → String

unfoldable pub pending_jobs : GpuScheduler → ℕ
pending_jobs s = length s.queue

unfoldable pub enqueue : ScheduledJob → GpuScheduler → GpuScheduler
enqueue job s = record s { queue = s.queue ++ (job ∷ []); history_count = suc s.history_count }

-- `while time.monotonic() < deadline`, from the n-th turn on; `none` if the fuel is spent.
unfoldable pub wait_loop :
    Turns
    → GpuAllocationRequest
    → (deadline : ℕ) → (fuel n : ℕ) → Option GpuAllocationResult
    → Allocations
    → Option (Option GpuAllocationResult × Allocations)
wait_loop turns request deadline zero n last a = none
wait_loop turns request deadline (suc fuel) n last a =
    let (r, a') = allocate (turns.uuid n) turns.render (turns.scanned n) request a in
    let rest = wait_loop turns request deadline fuel (suc n) (some r) a' in
    if ltb (turns.clock n) deadline
    then (if r.success then some (some r, a') else rest)
    else some (last, a)

-- `result` or a timeout, if no turn was taken.
unfoldable pub result_of : Option GpuAllocationResult → GpuAllocationResult
result_of none = failed_result "scheduler timeout"
result_of (some r) = r

-- The jobs with another id.
unfoldable pub without : String → List ScheduledJob → List ScheduledJob
without job_id [] = []
without job_id (j ∷ jobs) =
    let rest = without job_id jobs in if str_eq j.job_id job_id then rest else j ∷ rest

-- The removal at the end of `submit_and_wait`: the first job, or every job with the id.
unfoldable pub dequeue : String → List ScheduledJob → List ScheduledJob
unfolding without
dequeue job_id [] = []
dequeue job_id (j ∷ jobs) = if str_eq j.job_id job_id then jobs else without job_id (j ∷ jobs)

abbrev pub new_job : String → GpuAllocationRequest → ℕ → ScheduledJob
new_job job_id request now = record {
  job_id = job_id;
  request = request;
  enqueued_at = now;
  result = none;
  is_done = false;
}

-- `submit_and_wait`: the job's time is read first, and `now` before the loop.
unfoldable pub submit_and_wait :
    Turns
    → (job_id : String) → (enqueued_at now max_wait : ℕ) → GpuAllocationRequest
    → GpuScheduler
    → Option (GpuAllocationResult × GpuScheduler)
unfolding enqueue wait_loop result_of dequeue
submit_and_wait turns job_id enqueued_at now max_wait request s =
    let queued = enqueue (new_job job_id request enqueued_at) s in
    elim (wait_loop turns request (now + max_wait) (suc (now + max_wait)) 0 none
      queued.allocations) [
        | none ↦ none
        | some (last, a) ↦
            some (
              result_of last,
              record queued { queue = dequeue job_id queued.queue; allocations = a },
            )
      ]

-- `schedule_async` up to the start of the thread.
unfoldable pub schedule_async :
    (job_id : String) → (now : ℕ) → GpuAllocationRequest → GpuScheduler → GpuScheduler
unfolding enqueue
schedule_async job_id now request s = enqueue (new_job job_id request now) s

unfoldable pub mark_done : String → GpuAllocationResult → List ScheduledJob → List ScheduledJob
mark_done job_id r [] = []
mark_done job_id r (j ∷ jobs) =
    let rest = mark_done job_id r jobs in
    if str_eq j.job_id job_id then record j { result = some r; is_done = true } ∷ rest else j ∷ rest

-- The end of `_run_job`: the result is set, then the job is taken out of the queue.
unfoldable pub finish_job : String → GpuAllocationResult → GpuScheduler → GpuScheduler
unfolding mark_done without
finish_job job_id r s = record s { queue = without job_id (mark_done job_id r s.queue) }

unfoldable pub find_job : String → List ScheduledJob → Option ScheduledJob
find_job job_id [] = none
find_job job_id (j ∷ jobs) = if str_eq j.job_id job_id then some j else find_job job_id jobs

-- `get_job_result` without a timeout.
unfoldable pub get_job_result : String → GpuScheduler → Option GpuAllocationResult
unfolding find_job
get_job_result job_id s = elim (find_job job_id s.queue) [
  | none ↦ none
  | some j ↦ if j.is_done then j.result else none
]
