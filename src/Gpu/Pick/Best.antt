-- ===== src/Gpu/Pick/Best.antt =====
-- The device that `_pick_gpu_index` of backend/app/gpu/allocator.py picks.
use mathlib.Core.List.{Memᴰ}
use enterprise_ai_agent.Prelude.{
  ℕ, ◌≡◌, refl, sym, ap, subst, true, false, Option, none, some, List, [], ◌∷◌, arith, Bool-cases,
  All-Memᴰ, List-cases, inl, inr, All,
}
use enterprise_ai_agent.Gpu.Types.{GpuDeviceState, GpuAllocationRequest}
use enterprise_ai_agent.Gpu.Pick.{
  Candidate, is_eligible, candidate_of, candidates_of, is_below, insert_candidate, sort_candidates,
  pick_gpu_index,
}

-- A device that is picked: it is eligible, and no eligible device ranks strictly below it.
pub record Best (devices : List GpuDeviceState) (request : GpuAllocationRequest) (exclude : List ℕ)
    (i : ℕ) : Type 0 where
  pub device : GpuDeviceState
  pub scanned : Memᴰ device devices
  pub index : device.index ≡ i
  pub eligible : is_eligible request exclude device ≡ true
  pub first :
      (d : GpuDeviceState)
      → Memᴰ d devices
      → is_eligible request exclude d ≡ true
      → is_below (candidate_of request d) (candidate_of request device) ≡ false

abbrev pub Picked : List GpuDeviceState → GpuAllocationRequest → List ℕ → Option ℕ → Type 0
Picked devices request exclude none =
    (d : GpuDeviceState) → Memᴰ d devices → is_eligible request exclude d ≡ false
Picked devices request exclude (some i) = Best devices request exclude i

not_below_trans :
    (a b c : Candidate) → is_below a b ≡ false → is_below b c ≡ false → is_below a c ≡ false
unfolding is_below
not_below_trans a b c h k = ground arith

not_below_asymm : (a b : Candidate) → is_below a b ≡ true → is_below b a ≡ false
unfolding is_below
not_below_asymm a b h = ground arith

-- The head of the sorted list stands in the list, and nothing in the list is below it.
record Head (all : List Candidate) (sorted : List Candidate) : Type 0 where
  top : Candidate
  rest : List Candidate
  split : sorted ≡ top ∷ rest
  stands : Memᴰ top all
  least : All (λ c. is_below c top ≡ false) all

All-not-below :
    (a b : Candidate) (cs : List Candidate)
    → is_below a b ≡ false
    → All (λ c. is_below c a ≡ false) cs
    → All (λ c. is_below c b ≡ false) cs
All-not-below a b [] h k = tt
All-not-below a b (c ∷ cs) h k = (not_below_trans c a b k.0 h, All-not-below a b cs h k.1)

is_below_irrefl : (a : Candidate) → is_below a a ≡ false
unfolding is_below
is_below_irrefl a = ground arith

sort_candidates-Head :
    (x : Candidate) (xs : List Candidate) → Head (x ∷ xs) (sort_candidates (x ∷ xs))
unfolding sort_candidates insert_candidate
sort_candidates-Head x [] = record {
  top = x;
  rest = [];
  split = refl;
  stands = Memᴰ.head refl;
  least = (is_below_irrefl x, tt);
}
sort_candidates-Head x (y ∷ ys) =
    let h = sort_candidates-Head y ys in
    elim (Bool-cases (is_below h.top x)) [
      | inl e ↦
          rw (h.split, e, sort_candidates)
            (record {
              top = h.top;
              rest = _;
              split = refl;
              stands = Memᴰ.tail h.stands;
              least = (not_below_asymm h.top x e, h.least);
            })
      | inr e ↦
          rw (h.split, e, sort_candidates)
            (record {
              top = x;
              rest = _;
              split = refl;
              stands = Memᴰ.head refl;
              least = (is_below_irrefl x, All-not-below h.top x (y ∷ ys) e h.least);
            })
    ]

-- The device that a candidate comes from.
record Source (request : GpuAllocationRequest) (exclude : List ℕ) (devices : List GpuDeviceState)
    (c : Candidate) : Type 0 where
  device : GpuDeviceState
  scanned : Memᴰ device devices
  eligible : is_eligible request exclude device ≡ true
  candidate : c ≡ candidate_of request device

module _ (request : GpuAllocationRequest) (exclude : List ℕ) where
  candidates_of-Source :
      (all devices : List GpuDeviceState)
      → ((d : GpuDeviceState) → Memᴰ d devices → Memᴰ d all)
      → All (Source request exclude all) (candidates_of request exclude devices)
  unfolding candidates_of
  candidates_of-Source all [] h = tt
  candidates_of-Source all (d ∷ devices) h =
      let rest = candidates_of-Source all devices (λ x m. h x (Memᴰ.tail m)) in
      elim (Bool-cases (is_eligible request exclude d)) [
        | inl e ↦
            rw (e, candidates_of)
              (
                record {
                  device = d;
                  scanned = h d (Memᴰ.head refl);
                  eligible = e;
                  candidate = refl;
                },
                rest,
              )
        | inr e ↦ rw (e, candidates_of) rest
      ]

  All-candidates_of {κ} :
      (P : Candidate → Type κ) (devices : List GpuDeviceState)
      → All P (candidates_of request exclude devices)
      → (d : GpuDeviceState) → Memᴰ d devices
      → is_eligible request exclude d ≡ true
      → P (candidate_of request d)
  unfolding candidates_of
  All-candidates_of P [] h d m e = elim m [ ]
  All-candidates_of P (d' ∷ devices) h d (Memᴰ.head same) e =
      let k : All P (candidate_of request d' ∷ candidates_of request exclude devices) =
        rw (sym same, e, candidates_of, same) at h in
      subst (λ x. P (candidate_of request x)) (sym same) k.0
  All-candidates_of P (d' ∷ devices) h d (Memᴰ.tail m) e =
      elim (Bool-cases (is_eligible request exclude d')) [
        | inl f ↦
            let k : All P (candidate_of request d' ∷ candidates_of request exclude devices) =
              rw (f, candidates_of) at h in
            All-candidates_of P devices k.1 d m e
        | inr f ↦ All-candidates_of P devices (rw (f, candidates_of) at h) d m e
      ]

  -- `_pick_gpu_index` returns None only if no device is eligible; otherwise it returns the index of an
  -- eligible device, and no eligible device has a lower score, or the same and more memory free.
  pub pick_gpu_index-Picked :
      (devices : List GpuDeviceState)
      → Picked devices request exclude (pick_gpu_index devices request exclude)
  unfolding pick_gpu_index sort_candidates candidate_of
  pick_gpu_index-Picked devices = elim (List-cases (candidates_of request exclude devices)) [
    | inl e ↦
        rw (e, pick_gpu_index, sort_candidates)
          (λ d m. elim (Bool-cases (is_eligible request exclude d)) [
            | inr f ↦ f
            | inl f ↦ cc (All-candidates_of (λ c. true ≡ false) devices (rw e tt) d m f)
          ])
    | inr (x, xs, e) ↦
        let h = sort_candidates-Head x xs in
        let all : All (Source request exclude devices) (x ∷ xs) =
          rw e at (candidates_of-Source devices devices (λ d m. m)) in
        let s = All-Memᴰ (Source request exclude devices) (x ∷ xs) all h.stands in
        rw (e, h.split, pick_gpu_index)
          (record {
            device = s.device;
            scanned = s.scanned;
            index = ap (λ c. c.index) (sym s.candidate);
            eligible = s.eligible;
            first = λ d m f.
                rw (sym s.candidate)
                  (All-candidates_of (λ c. is_below c h.top ≡ false) devices (rw e h.least) d m f);
          })
  ]
