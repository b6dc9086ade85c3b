-- ===== src/Scheduler/Queue/Interface.antt =====
-- `TaskQueue` of backend/app/scheduler/queue.py: the operations of the abstract class, and the laws
-- on which the scheduler relies.
use enterprise_ai_agent.Prelude.{
  ℕ, ◌+◌, ◌-◌, ◌≡◌, Bool, true, false, Option, none, some, ◌==◌, if◌then◌else◌, ◌⊎◌,
}
use enterprise_ai_agent.Prelude.Int.{ℤ}

-- What `TaskQueue` promises to its client. `waiting q i` is how often the task `i` will still be
-- handed out, and `blocked q i` says that a push of `i` may be swallowed.
pub record TaskQueue : Type 1 where
  pub Q : Type 0
  pub empty : Q
  pub push : ℕ → ℤ → ℕ → Q → Q
  pub pop : Q → Option ℕ × Q
  pub remove : ℕ → Q → Bool × Q
  pub qsize : Q → ℕ
  pub waiting : Q → ℕ → ℕ
  pub blocked : Q → ℕ → Bool
  pub waiting-empty : (i : ℕ) → waiting empty i ≡ 0
  pub blocked-empty : (i : ℕ) → blocked empty i ≡ false
  pub waiting-push :
      (i : ℕ) (p : ℤ) (t : ℕ) (q : Q) (j : ℕ)
      → blocked q i ≡ false
      → waiting (push i p t q) j ≡ (if i == j then waiting q j + 1 else waiting q j)
  pub blocked-push :
      (i : ℕ) (p : ℤ) (t : ℕ) (q : Q) (j : ℕ) → blocked (push i p t q) j ≡ blocked q j
  pub waiting-remove :
      (i : ℕ) (q : Q) (j : ℕ)
      → blocked q i ≡ false
      → waiting (remove i q).1 j ≡ (if i == j then waiting q j - 1 else waiting q j)
  pub blocked-remove :
      (i : ℕ) (q : Q) (j : ℕ) → blocked (remove i q).1 j ≡ true → (i ≡ j) ⊎ (blocked q j ≡ true)
  pub waiting-pop :
      (q : Q) (i : ℕ)
      → (pop q).0 ≡ some i
      → (j : ℕ) → waiting q j ≡ (if i == j then waiting (pop q).1 j + 1 else waiting (pop q).1 j)
  pub waiting-pop_none :
      (q : Q) → (pop q).0 ≡ none → (j : ℕ) → (waiting q j ≡ 0) × (waiting (pop q).1 j ≡ 0)
  pub blocked-pop : (q : Q) (j : ℕ) → blocked (pop q).1 j ≡ true → blocked q j ≡ true
