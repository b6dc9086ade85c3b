-- ===== src/Gpu/Allocator/Release.antt =====
-- `release` of backend/app/gpu/allocator.py, and what `allocate` does not look at.
use enterprise_ai_agent.Prelude.{
  ℕ, zero, suc, ◌≤◌, ◌≡◌, refl, ◌∙◌, List, [], ◌∷◌, String, Option-cases, inl, inr,
}
use enterprise_ai_agent.Prelude.TextDict.{erase}
use enterprise_ai_agent.Gpu.Types.{GpuDeviceState, GpuAllocationRequest, GpuAllocationResult}
use enterprise_ai_agent.Gpu.Pick.{pick_gpu_index}
use enterprise_ai_agent.Gpu.Allocator.{
  Allocations, failed_result, rollback, release, choose, allocate,
}
use enterprise_ai_agent.Gpu.Allocator.Records.{Fresh, ids_from, rollback-records_from}
use enterprise_ai_agent.Gpu.Allocator.Grants.{Response, granted, refused, allocate-Response}

-- A release of each of the ids, in their order.
unfoldable pub release_each : List String → Allocations → Allocations
release_each [] a = a
release_each (i ∷ ids) a = release_each ids (release i a).1

release_each-rollback : (ids : List String) (a : Allocations) → release_each ids a ≡ rollback ids a
unfolding release_each rollback release
release_each-rollback [] a = refl
release_each-rollback (i ∷ ids) a = release_each-rollback ids (erase i a)

restored :
    (uuid : ℕ → String) {devices : List GpuDeviceState} (request : GpuAllocationRequest)
    (a : Allocations) {r : GpuAllocationResult × Allocations}
    → Fresh uuid a
    → Response uuid devices request a r
    → release_each r.0.allocation_ids r.1 ≡ a
unfolding failed_result rollback
restored uuid request a fresh (granted chosen n d f) =
    release_each-rollback (ids_from uuid 0 chosen) _
    ∙ rollback-records_from uuid request a fresh 0 chosen
restored uuid request a fresh (refused message chosen n d f u) = release_each-rollback [] a

-- A client that releases the ids of the answer, whether it was granted or refused, leaves the records
-- as they were before it asked, given ids that are new and all different, and at least one device
-- asked for.
pub release_each-allocate :
    (uuid : ℕ → String) (render : ℕ → String) (devices : List GpuDeviceState)
    (request : GpuAllocationRequest) (a : Allocations)
    → Fresh uuid a
    → 1 ≤ request.gpu_count
    → release_each
        (allocate uuid render devices request a).0.allocation_ids
        (allocate uuid render devices request a).1
      ≡ a
release_each-allocate uuid render devices request a fresh h =
    restored uuid request a fresh (allocate-Response uuid render devices request a fresh h)

choose-result :
    (uuid : ℕ → String) (render : ℕ → String) (request : GpuAllocationRequest) (count : ℕ)
    (devices : List GpuDeviceState) (ids : List String) (chosen : List ℕ) (a b : Allocations)
    → (choose uuid render request count devices ids chosen a).0
      ≡ (choose uuid render request count devices ids chosen b).0
unfolding choose
choose-result uuid render request zero devices ids chosen a b = refl
choose-result uuid render request (suc count) devices ids chosen a b =
    elim (Option-cases (pick_gpu_index devices request chosen)) [
      | inl e ↦ rw (e, choose) refl
      | inr (i, e) ↦ rw (e, choose) (choose-result uuid render request count _ _ _ _ _)
    ]

-- The answer to a request does not depend on the allocations that are in force: quotas that were
-- granted before are not taken off the free memory of the devices.
pub allocate-result :
    (uuid : ℕ → String) (render : ℕ → String) (devices : List GpuDeviceState)
    (request : GpuAllocationRequest) (a b : Allocations)
    → (allocate uuid render devices request a).0 ≡ (allocate uuid render devices request b).0
unfolding allocate
allocate-result uuid render [] request a b = refl
allocate-result uuid render (d ∷ devices) request a b =
    choose-result uuid render request request.gpu_count (d ∷ devices) [] [] a b
