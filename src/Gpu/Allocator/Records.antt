-- ===== src/Gpu/Allocator/Records.antt =====
-- The records of one request to the allocator of backend/app/gpu/allocator.py, and their rollback.
use mathlib.Core.List.{append-nil, append_assoc}
use enterprise_ai_agent.Prelude.{
  ℕ, suc, ◌+◌, ◌≤◌, ◌<◌, ◌≡◌, refl, ◌∙◌, ap, ◌⊎◌, inl, inr, none, List, [], ◌∷◌, ◌++◌, String,
  length, arith, Bool-cases,
}
use enterprise_ai_agent.Prelude.Text.{str_eq, eq_iff, eq_refl}
use enterprise_ai_agent.Prelude.TextDict.{
  lookup, insert, erase, insert-fresh, erase-append, erase-fresh, lookup-append-none,
}
use enterprise_ai_agent.Gpu.Types.{GpuAllocationRequest}
use enterprise_ai_agent.Gpu.Allocator.{Allocations, rollback, record_of}

-- The ids given out are new ones.
pub record Fresh (uuid : ℕ → String) (a : Allocations) : Type 0 where
  pub distinct : (m n : ℕ) → uuid m ≡ uuid n → m ≡ n
  pub new : (n : ℕ) → lookup (uuid n) a ≡ none

-- The ids of a request's records, and the records, from the n-th one on.
unfoldable pub ids_from : (ℕ → String) → ℕ → List ℕ → List String
ids_from uuid n [] = []
ids_from uuid n (i ∷ chosen) = uuid n ∷ ids_from uuid (suc n) chosen

unfoldable pub records_from : (ℕ → String) → GpuAllocationRequest → ℕ → List ℕ → Allocations
records_from uuid request n [] = []
records_from uuid request n (i ∷ chosen) =
    (uuid n, record_of request (uuid n) i) ∷ records_from uuid request (suc n) chosen

pub ids_from-snoc :
    (uuid : ℕ → String) (n m i : ℕ) (is : List ℕ)
    → n + length is ≡ m
    → ids_from uuid n is ++ (uuid m ∷ []) ≡ ids_from uuid n (is ++ (i ∷ []))
unfolding ids_from
ids_from-snoc uuid n m i [] h = ap (λ k. uuid k ∷ []) (omega arith)
ids_from-snoc uuid n m i (j ∷ is) h =
    ap (λ l. uuid n ∷ l) (ids_from-snoc uuid (suc n) m i is (omega arith))

records_from-snoc :
    (uuid : ℕ → String) (request : GpuAllocationRequest) (n m i : ℕ) (is : List ℕ)
    → n + length is ≡ m
    → records_from uuid request n is ++ ((uuid m, record_of request (uuid m) i) ∷ [])
      ≡ records_from uuid request n (is ++ (i ∷ []))
unfolding records_from
records_from-snoc uuid request n m i [] h =
    ap (λ k. (uuid k, record_of request (uuid k) i) ∷ []) (omega arith)
records_from-snoc uuid request n m i (j ∷ is) h =
    ap (λ l. (uuid n, record_of request (uuid n) j) ∷ l)
      (records_from-snoc uuid request (suc n) m i is (omega arith))

module _ (uuid : ℕ → String) (request : GpuAllocationRequest) (a : Allocations)
    (fresh : Fresh uuid a) where
  lookup-records_from :
      (m n : ℕ) (is : List ℕ)
      → (m < n) ⊎ (n + length is ≤ m)
      → lookup (uuid m) (records_from uuid request n is) ≡ none
  unfolding lookup records_from
  lookup-records_from m n [] h = refl
  lookup-records_from m n (i ∷ is) h = elim (Bool-cases (str_eq (uuid n) (uuid m))) [
    | inl e ↦
        let same : n ≡ m = fresh.distinct n m (ground (arith, eq_iff (uuid n) (uuid m))) in
        ground (arith, h)
    | inr e ↦ rw (e, lookup) (lookup-records_from m (suc n) is (ground (arith, h)))
  ]

  lookup-all :
      (n m : ℕ) (is : List ℕ)
      → (m < n) ⊎ (n + length is ≤ m)
      → lookup (uuid m) (a ++ records_from uuid request n is) ≡ none
  lookup-all n m is h =
      lookup-append-none (uuid m) a (records_from uuid request n is) (fresh.new m)
        (lookup-records_from m n is h)

  pub insert-records_from :
      (i : ℕ) (is : List ℕ)
      → insert
          (uuid (length is))
          (record_of request (uuid (length is)) i)
          (a ++ records_from uuid request 0 is)
        ≡ a ++ records_from uuid request 0 (is ++ (i ∷ []))
  insert-records_from i is =
      let r = record_of request (uuid (length is)) i in
      insert-fresh (uuid (length is)) r (a ++ records_from uuid request 0 is)
        (lookup-all 0 (length is) is (inr (omega arith)))
      ∙ append_assoc a (records_from uuid request 0 is) ((uuid (length is), r) ∷ [])
      ∙ ap (λ l. a ++ l) (records_from-snoc uuid request 0 (length is) i is (omega arith))

  pub rollback-records_from :
      (n : ℕ) (is : List ℕ)
      → rollback (ids_from uuid n is) (a ++ records_from uuid request n is) ≡ a
  unfolding ids_from records_from rollback erase
  rollback-records_from n [] = append-nil a
  rollback-records_from n (i ∷ is) =
      let rest = records_from uuid request (suc n) is in
      let r = record_of request (uuid n) i in
      let here : erase (uuid n) ((uuid n, r) ∷ rest) ≡ rest =
        rw (eq_refl (uuid n), erase)
          (erase-fresh (uuid n) rest (lookup-records_from n (suc n) is (inl (omega arith)))) in
      let erased : erase (uuid n) (a ++ ((uuid n, r) ∷ rest)) ≡ a ++ rest =
        erase-append (uuid n) a ((uuid n, r) ∷ rest)
        ∙ rw (erase-fresh (uuid n) a (fresh.new n)) (ap (λ l. a ++ l) here) in
      rw (erased, rollback) (rollback-records_from (suc n) is)
