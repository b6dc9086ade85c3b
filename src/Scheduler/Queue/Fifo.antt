-- ===== src/Scheduler/Queue/Fifo.antt =====
-- `FIFOQueue` of backend/app/scheduler/queue.py: a deque.
use enterprise_ai_agent.Prelude.{
  ℕ, ◌+◌, ◌-◌, ◌≡◌, refl, Bool, true, false, Option, none, some, List, [], ◌∷◌, ◌++◌, ◌==◌, length,
  if◌then◌else◌, arith, inl, inr, Option-cases,
}
use enterprise_ai_agent.Prelude.Int.{ℤ}
use enterprise_ai_agent.Scheduler.Queue.Interface.{TaskQueue}

abbrev pub FifoQueue : Type 0
FifoQueue = List ℕ

unfoldable pub push : ℕ → ℤ → ℕ → FifoQueue → FifoQueue
push task_id priority enqueued_at q = q ++ (task_id ∷ [])

unfoldable pub pop : FifoQueue → Option ℕ × FifoQueue
pop [] = (none, [])
pop (task_id ∷ q) = (some task_id, q)

-- `deque.remove`, which takes out the first occurrence, or raises ValueError.
delete : ℕ → FifoQueue → Option FifoQueue
delete i [] = none
delete i (x ∷ q) =
    if x == i then some q else elim (delete i q) [ none ↦ none | some r ↦ some (x ∷ r) ]

unfoldable pub remove : ℕ → FifoQueue → Bool × FifoQueue
unfolding delete
remove task_id q = elim (delete task_id q) [ none ↦ (false, q) | some r ↦ (true, r) ]

unfoldable pub qsize : FifoQueue → ℕ
qsize q = length q

-- How often a task stands in the deque.
unfoldable pub waiting : FifoQueue → ℕ → ℕ
waiting [] i = 0
waiting (x ∷ q) i = if x == i then waiting q i + 1 else waiting q i

pub waiting-push :
    (i : ℕ) (p : ℤ) (t : ℕ) (q : FifoQueue) (j : ℕ)
    → waiting (push i p t q) j ≡ (if i == j then waiting q j + 1 else waiting q j)
unfolding waiting push
waiting-push i p t [] j = ground arith
waiting-push i p t (x ∷ q) j = ground (arith, waiting-push i p t q j)

delete-eq-none : (i : ℕ) (q : FifoQueue) → delete i q ≡ none → waiting q i ≡ 0
unfolding delete waiting
delete-eq-none i [] e = refl
delete-eq-none i (x ∷ q) e = ground (arith, delete-eq-none i q)

delete-eq-some :
    (i : ℕ) (q r : FifoQueue) (j : ℕ)
    → delete i q ≡ some r
    → waiting q j ≡ (if i == j then waiting r j + 1 else waiting r j)
unfolding delete waiting
delete-eq-some i [] r j e = ground arith
delete-eq-some i (x ∷ q) r j e = elim (Option-cases (delete i q)) [
  | inl h ↦ ground arith
  | inr (s, h) ↦ ground (arith, delete-eq-some i q s j h)
]

pub waiting-remove :
    (i : ℕ) (q : FifoQueue) (j : ℕ)
    → waiting (remove i q).1 j ≡ (if i == j then waiting q j - 1 else waiting q j)
unfolding remove
waiting-remove i q j = elim (Option-cases (delete i q)) [
  | inl h ↦ ground (arith, delete-eq-none i q h)
  | inr (r, h) ↦ ground (arith, delete-eq-some i q r j h)
]

pub waiting-pop :
    (q : FifoQueue) (i : ℕ)
    → (pop q).0 ≡ some i
    → (j : ℕ) → waiting q j ≡ (if i == j then waiting (pop q).1 j + 1 else waiting (pop q).1 j)
unfolding pop waiting
waiting-pop [] i e j = ground arith
waiting-pop (x ∷ q) i e j = ground arith

pub waiting-pop_none :
    (q : FifoQueue) → (pop q).0 ≡ none → (j : ℕ) → (waiting q j ≡ 0) × (waiting (pop q).1 j ≡ 0)
unfolding pop waiting
waiting-pop_none [] e j = (refl, refl)
waiting-pop_none (x ∷ q) e j = (ground arith, ground arith)

pub waiting-nil : (i : ℕ) → waiting [] i ≡ 0
unfolding waiting
waiting-nil i = refl

-- The queue behind its interface: no push is ever swallowed.
abbrev pub fifo_queue : TaskQueue
fifo_queue = record {
  Q = FifoQueue;
  empty = [];
  push = push;
  pop = pop;
  remove = remove;
  qsize = qsize;
  waiting = waiting;
  blocked = λ q i. false;
  waiting-empty = waiting-nil;
  blocked-empty = λ i. refl;
  waiting-push = λ i p t q j h. waiting-push i p t q j;
  blocked-push = λ i p t q j. refl;
  waiting-remove = λ i q j h. waiting-remove i q j;
  blocked-remove = λ i q j h. inr h;
  waiting-pop = waiting-pop;
  waiting-pop_none = waiting-pop_none;
  blocked-pop = λ q j h. h;
}
