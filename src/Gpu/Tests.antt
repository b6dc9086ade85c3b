-- ===== src/Gpu/Tests.antt =====
-- Requests to the allocator of backend/app/gpu/allocator.py.
use mathlib.Core.Path.{ap}
use text.Mathlib.TextLemmas.{length-append}
use Prim.Native.String.{count, ◌++◌ as str_append}
use enterprise_ai_agent.Prelude.{
  ℕ, zero, suc, ◌+◌, ◌≡◌, refl, sym, ◌∙◌, none, some, List, [], ◌∷◌, String, arith,
}
use enterprise_ai_agent.Prelude.TextDict.{lookup}
use enterprise_ai_agent.Gpu.Types.{GpuDeviceStatus, GpuDeviceState, GpuAllocationRequest}
use enterprise_ai_agent.Gpu.Pick.{
  pick_gpu_index, sort_candidates, candidates_of, is_eligible, effective_free_mib, insert_candidate,
  is_below, candidate_of,
}
use enterprise_ai_agent.Gpu.Pick.Best.{Picked, pick_gpu_index-Picked}
use enterprise_ai_agent.Gpu.Allocator.{Allocations, allocate, merge_device_allocations}
use enterprise_ai_agent.Gpu.Allocator.Records.{Fresh}
use enterprise_ai_agent.Gpu.Allocator.Grants.{Response, allocate-Response}
use enterprise_ai_agent.Gpu.Allocator.Release.{release_each, release_each-allocate, allocate-result}
use enterprise_ai_agent.Gpu.Scheduler.{Turns, GpuScheduler, submit_and_wait, new_job, find_job}
use enterprise_ai_agent.Gpu.Scheduler.Waits.{Returned, submit_and_wait-Returned}
use enterprise_ai_agent.Gpu.Allocator.Totals.{Merged, merge_device_allocations-Merged}

abbrev device : ℕ → ℕ → ℕ → GpuDeviceState
device index free load = record {
  index = index;
  name = "gpu";
  status = GpuDeviceStatus.available;
  memory_used_mib = none;
  memory_total_mib = none;
  memory_free_mib = some free;
  utilization_percent = some load;
  temperature_c = some 40;
  allocated_mib = 0;
  allocation_count = 0;
}

abbrev devices : List GpuDeviceState
devices = device 0 8000 90 ∷ device 1 24000 10 ∷ device 2 16000 50 ∷ []

abbrev two_devices : GpuAllocationRequest
two_devices = record {
  memory_mib = 10000;
  gpu_count = 2;
  owner = "a";
  purpose = "inference";
  preferred_indices = [];
  metadata = [];
}

marks : ℕ → String
marks zero = ""
marks (suc n) = str_append "x" (marks n)

length-marks : (n : ℕ) → count (marks n) ≡ n
unfolding marks
length-marks zero = refl
length-marks (suc n) = length-append "x" (marks n) ∙ omega (arith, length-marks n)

marks-Fresh : Fresh marks []
unfolding lookup
marks-Fresh = record {
  distinct = λ m n e. sym (length-marks m) ∙ ap count e ∙ length-marks n;
  new = λ n. refl;
}

abbrev render : ℕ → String
render n = "some"

-- The two devices with enough memory, the one with the lower load first.
two_granted : (allocate marks render devices two_devices []).0.gpu_indices ≡ 1 ∷ 2 ∷ []
unfolding allocate sort_candidates candidates_of is_eligible effective_free_mib insert_candidate
    is_below candidate_of
two_granted = refl

pick_gpu_index-Picked_example :
    Picked devices two_devices (1 ∷ []) (pick_gpu_index devices two_devices (1 ∷ []))
pick_gpu_index-Picked_example = pick_gpu_index-Picked two_devices (1 ∷ []) devices

allocate-Response_example :
    Response marks devices two_devices [] (allocate marks render devices two_devices [])
allocate-Response_example =
    allocate-Response marks render devices two_devices [] marks-Fresh (omega arith)

release_each-allocate_example :
    release_each
      (allocate marks render devices two_devices []).0.allocation_ids
      (allocate marks render devices two_devices []).1
    ≡ []
release_each-allocate_example =
    release_each-allocate marks render devices two_devices [] marks-Fresh (omega arith)

-- The devices are busy in the first two turns.
abbrev scans : ℕ → List GpuDeviceState
scans zero = []
scans (suc zero) = []
scans (suc (suc n)) = devices

abbrev turns : Turns
turns = record { clock = λ n. 7 + n; scanned = scans; uuid = λ n. marks; render = render }

abbrev one_waiting : GpuScheduler
one_waiting = record { queue = new_job "a" two_devices 3 ∷ []; history_count = 4; allocations = [] }

submit_and_wait-Returned_example :
    Returned turns two_devices one_waiting
      (submit_and_wait turns "b" 5 6 10 two_devices one_waiting)
unfolding find_job
submit_and_wait-Returned_example =
    submit_and_wait-Returned turns "b" 5 6 10 two_devices one_waiting (λ n. marks-Fresh)
      (λ n. omega arith) (omega arith) refl

abbrev in_force : Allocations
in_force =
    (
      "r1",
      record {
        allocation_id = "r1";
        gpu_index = 1;
        memory_mib = 24000;
        owner = "b";
        purpose = "training";
        metadata = [];
      },
    )
    ∷ []

-- Device 1 is granted although the records in force give all of its memory away.
allocate-result_example :
    (allocate marks render devices two_devices in_force).0
    ≡ (allocate marks render devices two_devices []).0
allocate-result_example = allocate-result marks render devices two_devices in_force []

merge_device_allocations-Merged_example :
    Merged in_force devices (merge_device_allocations in_force devices)
merge_device_allocations-Merged_example = merge_device_allocations-Merged in_force devices
