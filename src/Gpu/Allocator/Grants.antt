-- ===== src/Gpu/Allocator/Grants.antt =====
-- What `allocate` of backend/app/gpu/allocator.py grants, and what it leaves when it refuses.
use mathlib.Core.List.{Memᴰ, append-nil}
use enterprise_ai_agent.Prelude.{
  ℕ, zero, suc, ◌+◌, ◌≤◌, ◌<◌, ◌==◌, ◌≡◌, refl, ap, subst, true, false, inl, inr, List, [], ◌∷◌,
  ◌++◌, String, length, if◌then◌else◌, arith, Bool-cases, Option-cases, All, Memᴰ-cases,
  length-append,
}
use enterprise_ai_agent.Gpu.Types.{
  GpuDeviceState, GpuAllocationRecord, GpuAllocationRequest, GpuAllocationResult,
}
use enterprise_ai_agent.Gpu.Pick.{
  is_in, is_preferred, is_eligible, effective_free_mib, pick_gpu_index,
}
use enterprise_ai_agent.Gpu.Pick.Best.{Picked, pick_gpu_index-Picked}
use enterprise_ai_agent.Gpu.Allocator.Records.{
  Fresh, ids_from, records_from, ids_from-snoc, insert-records_from, rollback-records_from,
}
use enterprise_ai_agent.Gpu.Allocator.{
  Allocations, apply_allocation, record_of, failed_result, choose, allocate,
}

abbrev pub Distinct : List ℕ → Type 0
Distinct [] = Unit
Distinct (i ∷ is) = (is_in i is ≡ false) × Distinct is

-- A scanned device with this index that has the memory asked for, and is preferred if any is.
pub record Fits (devices : List GpuDeviceState) (request : GpuAllocationRequest) (i : ℕ)
    : Type 0 where
  pub device : GpuDeviceState
  pub scanned : Memᴰ device devices
  pub index : device.index ≡ i
  pub memory : request.memory_mib ≤ effective_free_mib device
  pub preferred :
      is_preferred request.preferred_indices ≡ true
      → is_in device.index request.preferred_indices ≡ true

-- What a request comes to.
pub data Response (uuid : ℕ → String) (devices : List GpuDeviceState)
    (request : GpuAllocationRequest) (a : Allocations)
    : GpuAllocationResult × Allocations → Type 0 where
  granted :
      (chosen : List ℕ)
      → length chosen ≡ request.gpu_count
      → Distinct chosen
      → All (Fits devices request) chosen
      → Response uuid devices request a (
        record {
          success = true;
          allocation_ids = ids_from uuid 0 chosen;
          gpu_indices = chosen;
          message = "allocated";
        },
        a ++ records_from uuid request 0 chosen,
      )
  refused :
      (message : String) (chosen : List ℕ)
      → length chosen < request.gpu_count
      → Distinct chosen
      → All (Fits devices request) chosen
      → ((d : GpuDeviceState) → Memᴰ d devices → is_eligible request chosen d ≡ false)
      → Response uuid devices request a (failed_result message, a)

is_in-snoc :
    (j i : ℕ) (is : List ℕ) → is_in j (is ++ (i ∷ [])) ≡ (if is_in j is then true else i == j)
unfolding is_in
is_in-snoc j i [] = ground arith
is_in-snoc j i (k ∷ is) = ground (arith, is_in-snoc j i is)

Distinct-snoc : (i : ℕ) (is : List ℕ) → is_in i is ≡ false → Distinct is → Distinct (is ++ (i ∷ []))
unfolding is_in
Distinct-snoc i [] h k = (refl, tt)
Distinct-snoc i (j ∷ is) h k =
    (ground (arith, is_in-snoc j i is, k.0), Distinct-snoc i is (ground arith) k.1)

All-snoc {ℓ κ} :
    {A : Type ℓ} (P : A → Type κ) (x : A) (xs : List A) → P x → All P xs → All P (xs ++ (x ∷ []))
All-snoc P x [] p h = (p, tt)
All-snoc P x (y ∷ ys) p h = (h.0, All-snoc P x ys p h.1)

-- An allocation changes no device with another index.
apply_allocation-keeps :
    (d : GpuDeviceState) (r : GpuAllocationRecord) (devices : List GpuDeviceState)
    → (d.index == r.gpu_index) ≡ false
    → Memᴰ d devices
    → Memᴰ d (apply_allocation devices r)
unfolding apply_allocation
apply_allocation-keeps d r [] h m = m
apply_allocation-keeps d r (d' ∷ devices) h m = elim (Bool-cases (d'.index == r.gpu_index)) [
  | inl e ↦ elim (Memᴰ-cases m) [
    | inl same ↦ ground (arith, ap (λ x. x.index) same)
    | inr t ↦ rw (e, apply_allocation) (Memᴰ.tail t)
  ]
  | inr e ↦ elim (Memᴰ-cases m) [
    | inl same ↦ rw (e, apply_allocation) (Memᴰ.head same)
    | inr t ↦ rw (e, apply_allocation) (Memᴰ.tail (apply_allocation-keeps d r devices h t))
  ]
]

apply_allocation-only :
    (d : GpuDeviceState) (r : GpuAllocationRecord) (devices : List GpuDeviceState)
    → (d.index == r.gpu_index) ≡ false
    → Memᴰ d (apply_allocation devices r)
    → Memᴰ d devices
unfolding apply_allocation
apply_allocation-only d r [] h m = m
apply_allocation-only d r (d' ∷ devices) h m = elim (Bool-cases (d'.index == r.gpu_index)) [
  | inl e ↦ elim (Memᴰ-cases (rw (e, apply_allocation) at m)) [
    | inl same ↦ ground (arith, ap (λ x. x.index) same)
    | inr t ↦ Memᴰ.tail t
  ]
  | inr e ↦ elim (Memᴰ-cases (rw (e, apply_allocation) at m)) [
    | inl same ↦ Memᴰ.head same
    | inr t ↦ Memᴰ.tail (apply_allocation-only d r devices h t)
  ]
]

-- The devices are as they were scanned, but for those that are chosen.
record Unchanged (all devices : List GpuDeviceState) (chosen : List ℕ) : Type 0 where
  forth : (d : GpuDeviceState) → Memᴰ d devices → is_in d.index chosen ≡ false → Memᴰ d all
  back : (d : GpuDeviceState) → Memᴰ d all → is_in d.index chosen ≡ false → Memᴰ d devices

Unchanged-apply :
    {all devices : List GpuDeviceState} {chosen : List ℕ} (r : GpuAllocationRecord)
    → Unchanged all devices chosen
    → Unchanged all (apply_allocation devices r) (chosen ++ (r.gpu_index ∷ []))
Unchanged-apply {chosen = chosen} r u = record {
  forth = λ d m e.
      let s = is_in-snoc d.index r.gpu_index chosen in
      u.forth d (apply_allocation-only d r _ (ground arith) m) (ground arith);
  back = λ d m e.
      let s = is_in-snoc d.index r.gpu_index chosen in
      apply_allocation-keeps d r _ (ground arith) (u.back d m (ground arith));
}

is_eligible-parts :
    (request : GpuAllocationRequest) (chosen : List ℕ) (d : GpuDeviceState)
    → is_eligible request chosen d ≡ true
    → (is_in d.index chosen ≡ false)
      × (request.memory_mib ≤ effective_free_mib d)
      × (is_preferred request.preferred_indices ≡ true
          → is_in d.index request.preferred_indices ≡ true)
unfolding is_eligible
is_eligible-parts request chosen d h = (ground arith, ground arith, λ e. ground arith)

is_eligible-not_in :
    (request : GpuAllocationRequest) (chosen : List ℕ) (d : GpuDeviceState)
    → is_in d.index chosen ≡ true
    → is_eligible request chosen d ≡ false
unfolding is_eligible
is_eligible-not_in request chosen d h = ground arith

module _ (uuid : ℕ → String) (render : ℕ → String) (all : List GpuDeviceState)
    (request : GpuAllocationRequest) (a : Allocations) (fresh : Fresh uuid a) where
  choose-Response :
      (count : ℕ) (devices : List GpuDeviceState) (chosen : List ℕ)
      → length chosen + count ≡ request.gpu_count
      → Distinct chosen
      → All (Fits all request) chosen
      → Unchanged all devices chosen
      → Response uuid all request a (
          choose uuid render request count devices
            (ids_from uuid 0 chosen)
            chosen
            (a ++ records_from uuid request 0 chosen))
  unfolding choose
  choose-Response zero devices chosen total distinct fits u =
      granted chosen (omega arith) distinct fits
  choose-Response (suc count) devices chosen total distinct fits u =
      elim (Option-cases (pick_gpu_index devices request chosen)) [
        | inl e ↦
            let nothing =
              subst (Picked devices request chosen) e
                (pick_gpu_index-Picked request chosen devices) in
            rw (e, choose, rollback-records_from uuid request a fresh 0 chosen)
              (refused _ chosen (omega arith) distinct fits (λ d m.
                elim (Bool-cases (is_in d.index chosen)) [
                  | inl f ↦ is_eligible-not_in request chosen d f
                  | inr f ↦ nothing d (u.back d m f)
                ]))
        | inr (i, e) ↦
            let best =
              subst (Picked devices request chosen) e
                (pick_gpu_index-Picked request chosen devices) in
            let (new, memory, preferred) =
              is_eligible-parts request chosen best.device best.eligible in
            let r = record_of request (uuid (length chosen)) i in
            let grown = ids_from-snoc uuid 0 (length chosen) i chosen (omega arith) in
            let outside : is_in i chosen ≡ false = rw best.index at new in
            rw (e, choose, grown, insert-records_from uuid request a fresh i chosen)
              (choose-Response count (apply_allocation devices r) (chosen ++ (i ∷ []))
                (omega (arith, length-append chosen (i ∷ [])))
                (Distinct-snoc i chosen outside distinct)
                (All-snoc (Fits all request) i chosen
                  (record {
                    device = best.device;
                    scanned = u.forth best.device best.scanned new;
                    index = best.index;
                    memory = memory;
                    preferred = preferred;
                  })
                  fits)
                (Unchanged-apply r u))
      ]

-- Given ids that are new and all different, a request for at least one device is granted or refused.
-- If it is granted, the indices are distinct, as many as were asked for, each that of a scanned
-- device with enough memory that is preferred if any is, and the records added are one for each
-- index, under the ids of the answer. If it is refused, the records are as before, and once some
-- distinct devices that fit, fewer than asked for, were chosen, no other scanned device fits.
pub allocate-Response :
    (uuid : ℕ → String) (render : ℕ → String) (devices : List GpuDeviceState)
    (request : GpuAllocationRequest) (a : Allocations)
    → Fresh uuid a
    → 1 ≤ request.gpu_count
    → Response uuid devices request a (allocate uuid render devices request a)
unfolding allocate ids_from records_from
allocate-Response uuid render [] request a fresh h =
    refused _ [] (omega arith) tt tt (λ d m. elim m [ ])
allocate-Response uuid render (d ∷ devices) request a fresh h = rw (append-nil a) at (
    choose-Response uuid render (d ∷ devices) request a fresh request.gpu_count (d ∷ devices) []
      (omega arith) tt tt (record { forth = λ x m e. m; back = λ x m e. m }))
