-- ===== src/Gpu/Allocator.antt =====
-- `GPUAllocator` of backend/app/gpu/allocator.py, each method being one critical section.
--
-- The devices that the monitor scans are an argument, and so are the ids that `uuid4` makes: the
-- n-th record of a request gets the n-th of them. `render` writes a number in a message.
pub mod Records
pub mod Grants
pub mod Totals
pub mod Release
use Prim.Native.String.{◌++◌ as str_append}
use enterprise_ai_agent.Prelude.{
  ℕ, zero, suc, ◌+◌, ◌-◌, ◌*◌, ltb, ◌==◌, Bool, true, false, ◌&&◌, ◌||◌, not, Option, none, some,
  List, [], ◌∷◌, ◌++◌, String, length, if◌then◌else◌,
}
use enterprise_ai_agent.Prelude.Int.{ℤ, pos, negsuc, ltb_ℤ}
use enterprise_ai_agent.Prelude.Text.{str_eq}
use enterprise_ai_agent.Prelude.TextDict.{TextDict, lookup, insert, erase}
use enterprise_ai_agent.Prelude.Dict as Numbered
use enterprise_ai_agent.Gpu.Types.{
  GpuDeviceState, GpuAllocationRecord, GpuAllocationRequest, GpuAllocationResult,
}
use enterprise_ai_agent.Gpu.Pick.{pick_gpu_index}

abbrev pub Allocations : Type 0
Allocations = TextDict GpuAllocationRecord

-- `_apply_allocation_to_device`: the first device with the index.
unfoldable pub apply_allocation : List GpuDeviceState → GpuAllocationRecord → List GpuDeviceState
apply_allocation [] r = []
apply_allocation (d ∷ devices) r =
    if d.index == r.gpu_index
    then record d {
      allocated_mib = d.allocated_mib + r.memory_mib;
      allocation_count = suc d.allocation_count;
    }
      ∷ devices
    else d ∷ apply_allocation devices r

-- `_rollback_allocations`
unfoldable pub rollback : List String → Allocations → Allocations
rollback [] a = a
rollback (i ∷ ids) a = rollback ids (erase i a)

unfoldable pub record_of : GpuAllocationRequest → String → ℕ → GpuAllocationRecord
record_of request allocation_id gpu_index = record {
  allocation_id = allocation_id;
  gpu_index = gpu_index;
  memory_mib = request.memory_mib;
  owner = request.owner;
  purpose = request.purpose;
  metadata = request.metadata;
}

unfoldable pub failed_result : String → GpuAllocationResult
failed_result message = record {
  success = false;
  allocation_ids = [];
  gpu_indices = [];
  message = message;
}

-- The loop of `allocate`, with the devices that are still to be chosen.
unfoldable pub choose :
    (uuid : ℕ → String)
    → (render : ℕ → String) → GpuAllocationRequest
    → (count : ℕ) → List GpuDeviceState
    → (allocation_ids : List String) → (chosen : List ℕ) → Allocations
    → GpuAllocationResult × Allocations
unfolding pick_gpu_index apply_allocation rollback record_of failed_result
choose uuid render request zero devices allocation_ids chosen a = (
  record {
    success = true;
    allocation_ids = allocation_ids;
    gpu_indices = chosen;
    message = "allocated";
  },
  a,
)
choose uuid render request (suc count) devices allocation_ids chosen a =
    elim (pick_gpu_index devices request chosen) [
      | none ↦ (
        failed_result (
            str_append "Insufficient GPU memory for "
              (str_append (render request.memory_mib) " MiB")),
        rollback allocation_ids a,
      )
      | some gpu_index ↦
          let r = record_of request (uuid (length chosen)) gpu_index in
          choose uuid render request count (apply_allocation devices r)
            (allocation_ids ++ (r.allocation_id ∷ [])) (chosen ++ (gpu_index ∷ []))
            (insert r.allocation_id r a)
    ]

-- `allocate`
unfoldable pub allocate :
    (uuid : ℕ → String)
    → (render : ℕ → String) → List GpuDeviceState
    → GpuAllocationRequest
    → Allocations
    → GpuAllocationResult × Allocations
unfolding choose failed_result
allocate uuid render [] request a =
    (failed_result "No GPU devices detected (nvidia-smi unavailable?)", a)
allocate uuid render (d ∷ devices) request a =
    choose uuid render request request.gpu_count (d ∷ devices) [] [] a

-- `release`
unfoldable pub release : String → Allocations → Bool × Allocations
release allocation_id a =
    (elim (lookup allocation_id a) [ none ↦ false | some r ↦ true ], erase allocation_id a)

unfoldable pub ids_of_owner : String → Allocations → List String
ids_of_owner owner [] = []
ids_of_owner owner ((i, r) ∷ a) =
    if str_eq r.owner owner then i ∷ ids_of_owner owner a else ids_of_owner owner a

-- `release_all`; an empty owner counts as none.
unfoldable pub release_all : Option String → Allocations → ℕ × Allocations
unfolding ids_of_owner rollback
release_all none a = (length a, [])
release_all (some owner) a =
    if str_eq owner ""
    then (length a, [])
    else (length (ids_of_owner owner a), rollback (ids_of_owner owner a) a)

-- `totals.get(index, (0.0, 0))`
unfoldable pub total_of : ℕ → Numbered.Dict (ℕ × ℕ) → ℕ × ℕ
total_of index totals = elim (Numbered.lookup index totals) [ none ↦ (0, 0) | some t ↦ t ]

unfoldable pub totals_of : Allocations → Numbered.Dict (ℕ × ℕ) → Numbered.Dict (ℕ × ℕ)
unfolding total_of
totals_of [] totals = totals
totals_of ((i, r) ∷ a) totals =
    let (used, count) = total_of r.gpu_index totals in
    totals_of a (Numbered.insert r.gpu_index (used + r.memory_mib, suc count) totals)

unfoldable pub with_totals : Numbered.Dict (ℕ × ℕ) → List GpuDeviceState → List GpuDeviceState
unfolding total_of
with_totals totals [] = []
with_totals totals (d ∷ devices) =
    let (allocated, count) = total_of d.index totals in
    record d { allocated_mib = allocated; allocation_count = count } ∷ with_totals totals devices

-- `merge_device_allocations`
unfoldable pub merge_device_allocations : Allocations → List GpuDeviceState → List GpuDeviceState
unfolding totals_of with_totals
merge_device_allocations a devices = with_totals (totals_of a []) devices
