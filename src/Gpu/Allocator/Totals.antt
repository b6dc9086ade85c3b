-- ===== src/Gpu/Allocator/Totals.antt =====
-- `merge_device_allocations` of backend/app/gpu/allocator.py, against sums over the records.
use enterprise_ai_agent.Prelude.{ℕ, suc, ◌+◌, ◌==◌, ◌≡◌, List, [], ◌∷◌, if◌then◌else◌, arith}
use enterprise_ai_agent.Prelude.Dict as Numbered
use enterprise_ai_agent.Gpu.Types.{GpuDeviceState}
use enterprise_ai_agent.Gpu.Allocator.{
  Allocations, total_of, totals_of, with_totals, merge_device_allocations,
}

-- The memory of the records of a device, and their number.
unfoldable pub memory_on : ℕ → Allocations → ℕ
memory_on i [] = 0
memory_on i ((k, r) ∷ a) = if r.gpu_index == i then r.memory_mib + memory_on i a else memory_on i a

unfoldable pub records_on : ℕ → Allocations → ℕ
records_on i [] = 0
records_on i ((k, r) ∷ a) = if r.gpu_index == i then suc (records_on i a) else records_on i a

total_of-insert :
    (i j used count : ℕ) (totals : Numbered.Dict (ℕ × ℕ))
    → total_of j (Numbered.insert i (used, count) totals)
      ≡ (if i == j then (used, count) else total_of j totals)
unfolding total_of
total_of-insert i j used count totals =
    ground (arith, Numbered.lookup-insert i (used, count) totals j)

total_of-totals_of :
    (i : ℕ) (a : Allocations) (totals : Numbered.Dict (ℕ × ℕ))
    → ((total_of i (totals_of a totals)).0 ≡ (total_of i totals).0 + memory_on i a)
      × ((total_of i (totals_of a totals)).1 ≡ (total_of i totals).1 + records_on i a)
unfolding totals_of memory_on records_on
total_of-totals_of i [] totals = (omega arith, omega arith)
total_of-totals_of i ((k, r) ∷ a) totals =
    let old = total_of r.gpu_index totals in
    let now = Numbered.insert r.gpu_index (old.0 + r.memory_mib, suc old.1) totals in
    let h = total_of-totals_of i a now in
    let g = total_of-insert r.gpu_index i (old.0 + r.memory_mib) (suc old.1) totals in
    (ground (arith, h.0, g), ground (arith, h.1, g))

-- The devices of the first list, in order, with the sums over the records.
pub data Merged (a : Allocations) : List GpuDeviceState → List GpuDeviceState → Type 0 where
  no_device : Merged a [] []
  device :
      {old new : List GpuDeviceState} (d : GpuDeviceState)
      → Merged a old new
      → Merged a (d ∷ old) (
          record d { allocated_mib = memory_on d.index a; allocation_count = records_on d.index a }
          ∷ new)

pair_eq : {a b : ℕ} (p : ℕ × ℕ) → p.0 ≡ a → p.1 ≡ b → p ≡ (a, b)
pair_eq (x, y) h k = cc

total_of-all :
    (i : ℕ) (a : Allocations) → total_of i (totals_of a []) ≡ (memory_on i a, records_on i a)
unfolding total_of
total_of-all i a =
    let h = total_of-totals_of i a [] in
    let none_yet = Numbered.lookup-nil (ℕ × ℕ) i in
    pair_eq (total_of i (totals_of a [])) (ground (arith, h.0, none_yet))
      (ground (arith, h.1, none_yet))

-- The merged view has the same devices in the same order, each with the sum of the memory of the
-- records on its index and with their number; nothing else of a device changes.
pub merge_device_allocations-Merged :
    (a : Allocations) (devices : List GpuDeviceState)
    → Merged a devices (merge_device_allocations a devices)
unfolding merge_device_allocations with_totals
merge_device_allocations-Merged a [] = no_device
merge_device_allocations-Merged a (d ∷ devices) =
    rw (total_of-all d.index a) (device d (merge_device_allocations-Merged a devices))
