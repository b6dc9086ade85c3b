-- ===== src/Gpu/Scheduler/Waits.antt =====
-- What `submit_and_wait` of backend/app/gpu/scheduler.py comes to.
use enterprise_ai_agent.Prelude.{
  ℕ, zero, suc, ◌+◌, ◌≤◌, ◌<◌, ltb, ◌≡◌, refl, sym, ap, ◌∙◌, subst, true, false, Option, none, some,
  List, [], ◌∷◌, ◌++◌, String, arith, Bool-cases, inl, inr,
}
use enterprise_ai_agent.Prelude.Text.{str_eq, eq_refl}
use enterprise_ai_agent.Gpu.Types.{GpuDeviceState, GpuAllocationRequest, GpuAllocationResult}
use enterprise_ai_agent.Gpu.Allocator.{Allocations, allocate, failed_result}
use enterprise_ai_agent.Gpu.Allocator.Records.{Fresh}
use enterprise_ai_agent.Gpu.Allocator.Grants.{Response, granted, refused, allocate-Response}
use enterprise_ai_agent.Gpu.Scheduler.{
  ScheduledJob, GpuScheduler, Turns, wait_loop, result_of, without, dequeue, new_job, enqueue,
  submit_and_wait, find_job, mark_done, finish_job, get_job_result,
}

-- The loop ends with a success of the allocator on some turn's devices, or with a failure and the
-- allocations as they were.
pub data Waited (turns : Turns) (request : GpuAllocationRequest) (a : Allocations)
    : GpuAllocationResult × Allocations → Type 0 where
  served :
      (n : ℕ) (r : GpuAllocationResult × Allocations)
      → r.0.success ≡ true
      → Response (turns.uuid n) (turns.scanned n) request a r
      → Waited turns request a r
  not_served : (r : GpuAllocationResult) → r.success ≡ false → Waited turns request a (r, a)

refused-same :
    {uuid : ℕ → String} {devices : List GpuDeviceState} {request : GpuAllocationRequest}
    {a : Allocations} {r : GpuAllocationResult × Allocations}
    → Response uuid devices request a r
    → r.0.success ≡ false
    → r.1 ≡ a
refused-same (granted chosen n d f) e = cc
refused-same (refused message chosen n d f u) e = refl

record Left (turns : Turns) (request : GpuAllocationRequest) (a : Allocations)
    (r : Option (Option GpuAllocationResult × Allocations)) : Type 0 where
  last : Option GpuAllocationResult
  left : Allocations
  returns : r ≡ some (last, left)
  waited : Waited turns request a (result_of last, left)

module _ (turns : Turns) (request : GpuAllocationRequest) (a : Allocations)
    (fresh : (n : ℕ) → Fresh (turns.uuid n) a) (asked : 1 ≤ request.gpu_count)
    (runs : (n : ℕ) → turns.clock n < turns.clock (suc n)) where
  wait_loop-Left :
      (deadline fuel n : ℕ) (last : Option GpuAllocationResult)
      → (result_of last).success ≡ false
      → 1 ≤ fuel
      → deadline < fuel + turns.clock n
      → Left turns request a (wait_loop turns request deadline fuel n last a)
  unfolding wait_loop result_of
  wait_loop-Left deadline zero n last e h k = absurd (omega arith)
  wait_loop-Left deadline (suc fuel) n last e h k =
      let r = allocate (turns.uuid n) turns.render (turns.scanned n) request a in
      let answer =
        allocate-Response (turns.uuid n) turns.render (turns.scanned n) request a (fresh n) asked in
      elim (Bool-cases (ltb (turns.clock n) deadline)) [
        | inr late ↦
            rw (late, wait_loop)
              (record {
                last = last;
                left = a;
                returns = refl;
                waited = not_served (result_of last) e;
              })
        | inl early ↦ elim (Bool-cases r.0.success) [
          | inl f ↦
              rw (early, f, wait_loop)
                (record {
                  last = some r.0;
                  left = r.1;
                  returns = refl;
                  waited = served n r f answer;
                })
          | inr f ↦
              rw (early, f, wait_loop)
                (subst
                  (λ b.
                    Left turns request a
                      (wait_loop turns request deadline fuel (suc n) (some r.0) b))
                  (sym (refused-same answer f))
                  (wait_loop-Left deadline fuel (suc n) (some r.0) f (ground (arith, early))
                    (omega (arith, runs n))))
        ]
      ]

without-absent :
    (job_id : String) (jobs : List ScheduledJob)
    → find_job job_id jobs ≡ none
    → without job_id jobs ≡ jobs
unfolding without find_job
without-absent job_id [] h = refl
without-absent job_id (j ∷ jobs) h = elim (Bool-cases (str_eq j.job_id job_id)) [
  | inl e ↦ let found : some j ≡ none = rw (e, find_job) at h in cc
  | inr e ↦ rw (e, without) (ap (λ l. j ∷ l) (without-absent job_id jobs (rw (e, find_job) at h)))
]

without-last :
    (job_id : String) (jobs : List ScheduledJob) (job : ScheduledJob)
    → job.job_id ≡ job_id
    → without job_id (jobs ++ (job ∷ [])) ≡ without job_id jobs
unfolding without
without-last job_id [] job h = rw (h, eq_refl job_id) refl
without-last job_id (j ∷ jobs) job h = rw (without-last job_id jobs job h) refl

dequeue-enqueue :
    (job_id : String) (jobs : List ScheduledJob) (job : ScheduledJob)
    → job.job_id ≡ job_id
    → find_job job_id jobs ≡ none
    → dequeue job_id (jobs ++ (job ∷ [])) ≡ jobs
unfolding dequeue without find_job
dequeue-enqueue job_id [] job h k = rw (h, eq_refl job_id) refl
dequeue-enqueue job_id (j ∷ jobs) job h k = elim (Bool-cases (str_eq j.job_id job_id)) [
  | inl e ↦ let found : some j ≡ none = rw (e, find_job) at k in cc
  | inr e ↦
      rw (e, dequeue)
        (ap (λ l. j ∷ l)
          (without-last job_id jobs job h ∙ without-absent job_id jobs (rw (e, find_job) at k)))
]

-- `submit_and_wait` returned with an answer of the waiting loop and its job out of the queue.
pub record Returned (turns : Turns) (request : GpuAllocationRequest) (s : GpuScheduler)
    (r : Option (GpuAllocationResult × GpuScheduler)) : Type 0 where
  pub answer : GpuAllocationResult
  pub after : GpuScheduler
  pub returns : r ≡ some (answer, after)
  pub queue : after.queue ≡ s.queue
  pub history_count : after.history_count ≡ suc s.history_count
  pub waited : Waited turns request s.allocations (answer, after.allocations)

-- If the clock advances from turn to turn, the ids for the records are new and distinct in each turn,
-- at least one device is asked for and no queued job has the new job's id, then `submit_and_wait`
-- returns, with the queue as it was and one job more in the count; its answer is a success of the
-- allocator on the devices of some turn, or a failure with the records as they were.
pub submit_and_wait-Returned :
    (turns : Turns) (job_id : String) (enqueued_at now max_wait : ℕ)
    (request : GpuAllocationRequest) (s : GpuScheduler)
    → ((n : ℕ) → Fresh (turns.uuid n) s.allocations)
    → ((n : ℕ) → turns.clock n < turns.clock (suc n))
    → 1 ≤ request.gpu_count
    → find_job job_id s.queue ≡ none
    → Returned turns request s (submit_and_wait turns job_id enqueued_at now max_wait request s)
unfolding submit_and_wait enqueue result_of failed_result
submit_and_wait-Returned turns job_id enqueued_at now max_wait request s fresh runs asked new =
    let left =
      wait_loop-Left turns request s.allocations fresh asked runs (now + max_wait)
        (suc (now + max_wait)) 0 none refl (omega arith) (omega arith) in
    let queued = enqueue (new_job job_id request enqueued_at) s in
    rw (left.returns, submit_and_wait)
      (record {
        answer = result_of left.last;
        after = record queued { queue = dequeue job_id queued.queue; allocations = left.left };
        returns = refl;
        queue = dequeue-enqueue job_id s.queue (new_job job_id request enqueued_at) refl new;
        history_count = refl;
        waited = left.waited;
      })

find_job-mark_done :
    (job_id : String) (r : GpuAllocationResult) (jobs : List ScheduledJob)
    → find_job job_id (without job_id (mark_done job_id r jobs)) ≡ none
unfolding find_job without mark_done
find_job-mark_done job_id r [] = refl
find_job-mark_done job_id r (j ∷ jobs) = elim (Bool-cases (str_eq j.job_id job_id)) [
  | inl e ↦ rw (e, e) (find_job-mark_done job_id r jobs)
  | inr e ↦ rw (e, e, e) (find_job-mark_done job_id r jobs)
]

-- Once `_run_job` is over, `get_job_result` finds nothing under the job's id, whatever the result was.
pub get_job_result-finish_job :
    (job_id : String) (r : GpuAllocationResult) (s : GpuScheduler)
    → get_job_result job_id (finish_job job_id r s) ≡ none
unfolding get_job_result finish_job
get_job_result-finish_job job_id r s =
    rw (find_job-mark_done job_id r s.queue, get_job_result, finish_job) refl
