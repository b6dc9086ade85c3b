-- ===== src/Gpu/Pick.antt =====
-- `_pick_gpu_index` and `_effective_free_mib` of backend/app/gpu/allocator.py.
--
-- A score is twenty times that of the source, so that it is a whole number.
pub mod Best
use enterprise_ai_agent.Prelude.{
  ℕ, zero, suc, ◌+◌, ◌-◌, ◌*◌, ltb, ◌==◌, Bool, true, false, ◌&&◌, ◌||◌, not, Option, none, some,
  List, [], ◌∷◌, ◌++◌, String, length, if◌then◌else◌,
}
use enterprise_ai_agent.Prelude.Int.{ℤ, pos, negsuc, ltb_ℤ}
use enterprise_ai_agent.Prelude.Text.{str_eq}
use enterprise_ai_agent.Prelude.TextDict.{TextDict, lookup, insert, erase}
use enterprise_ai_agent.Prelude.Dict as Numbered
use enterprise_ai_agent.Gpu.Types.{
  GpuDeviceState, GpuAllocationRecord, GpuAllocationRequest, GpuAllocationResult,
}

unfoldable pub is_in : ℕ → List ℕ → Bool
is_in n [] = false
is_in n (m ∷ ms) = if m == n then true else is_in n ms

abbrev or_zero : Option ℕ → ℕ
or_zero none = 0
or_zero (some n) = n

-- Without a free figure, total less used, if both are there.
unfoldable pub free_of : Option ℕ → Option ℕ → Option ℕ → ℕ
free_of (some free) total used = free
free_of none (some total) (some used) = total - used
free_of none _ _ = 0

-- `_effective_free_mib`: `max(0.0, …)` is the subtraction on ℕ.
unfoldable pub effective_free_mib : GpuDeviceState → ℕ
unfolding free_of
effective_free_mib d =
    free_of d.memory_free_mib d.memory_total_mib d.memory_used_mib - d.allocated_mib

pub record Candidate : Type 0 where
  pub score : ℤ
  pub free_mib : ℕ
  pub index : ℕ

abbrev pub is_preferred : List ℕ → Bool
is_preferred [] = false
is_preferred (i ∷ is) = true

-- a - b
abbrev pub difference : ℕ → ℕ → ℤ
difference a b = if ltb a b then negsuc (b - suc a) else pos (a - b)

-- The conditions that let a device be passed over.
unfoldable pub is_eligible : GpuAllocationRequest → (exclude : List ℕ) → GpuDeviceState → Bool
unfolding is_in
is_eligible request exclude d =
    not (is_in d.index exclude)
    && (not (is_preferred request.preferred_indices) || is_in d.index request.preferred_indices)
    && not (ltb (effective_free_mib d) request.memory_mib)

unfoldable pub candidate_of : GpuAllocationRequest → GpuDeviceState → Candidate
candidate_of request d = record {
  score =
      difference (or_zero d.utilization_percent * 20 + or_zero d.temperature_c)
        (if is_preferred request.preferred_indices then 200 else 0);
  free_mib = effective_free_mib d;
  index = d.index;
}

unfoldable pub candidates_of :
    GpuAllocationRequest → (exclude : List ℕ) → List GpuDeviceState → List Candidate
candidates_of request exclude [] = []
candidates_of request exclude (d ∷ devices) =
    if is_eligible request exclude d
    then candidate_of request d ∷ candidates_of request exclude devices
    else candidates_of request exclude devices

-- `a`'s key stands strictly below `b`'s: a lower score, or the same and more memory free.
unfoldable pub is_below : Candidate → Candidate → Bool
is_below a b = ltb_ℤ a.score b.score || (not (ltb_ℤ b.score a.score) && ltb b.free_mib a.free_mib)

unfoldable pub insert_candidate : Candidate → List Candidate → List Candidate
insert_candidate a [] = a ∷ []
insert_candidate a (b ∷ rest) = if is_below b a then b ∷ insert_candidate a rest else a ∷ b ∷ rest

-- `candidates.sort(key=…)`, which is stable.
unfoldable pub sort_candidates : List Candidate → List Candidate
sort_candidates [] = []
sort_candidates (a ∷ rest) = insert_candidate a (sort_candidates rest)

-- `_pick_gpu_index`
unfoldable pub pick_gpu_index :
    List GpuDeviceState → GpuAllocationRequest → (exclude : List ℕ) → Option ℕ
pick_gpu_index devices request exclude =
    elim (sort_candidates (candidates_of request exclude devices)) [
      | [] ↦ none
      | c ∷ rest ↦ some c.index
    ]
