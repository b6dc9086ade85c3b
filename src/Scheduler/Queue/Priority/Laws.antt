-- ===== src/Scheduler/Queue/Priority/Laws.antt =====
-- The priority queue keeps the laws of `TaskQueue`.
use enterprise_ai_agent.Prelude.{
  ℕ, ◌+◌, ◌-◌, ◌≡◌, refl, true, false, none, some, List, [], ◌∷◌, ◌==◌, if◌then◌else◌, arith, inl,
  inr, Bool-cases, ◌⊎◌,
}
use enterprise_ai_agent.Prelude.Int.{ℤ}
use enterprise_ai_agent.Scheduler.Queue.Interface.{TaskQueue}
use enterprise_ai_agent.Scheduler.Queue.Priority.{
  PriorityItem, PriorityQueue, before, heappush, contains, add, discard, push, pop_from, pop,
  remove, qsize, occurrences, waiting_in,
}

pub contains-discard :
    (i : ℕ) (xs : List ℕ) (j : ℕ)
    → contains (discard i xs) j ≡ (if i == j then false else contains xs j)
unfolding contains discard
contains-discard i [] j = ground arith
contains-discard i (x ∷ xs) j = ground (arith, contains-discard i xs j)

pub contains-add :
    (i : ℕ) (xs : List ℕ) (j : ℕ) → contains (add i xs) j ≡ (if i == j then true else contains xs j)
unfolding contains add
contains-add i [] j = ground arith
contains-add i (x ∷ xs) j = ground arith

occurrences-heappush :
    (a : PriorityItem) (h : List PriorityItem) (j : ℕ)
    → occurrences (heappush a h) j
      ≡ (if a.task_id == j then occurrences h j + 1 else occurrences h j)
unfolding occurrences heappush
occurrences-heappush a [] j = refl
occurrences-heappush a (b ∷ h) j = elim (Bool-cases (before b a)) [
  | inl e ↦ ground (arith, occurrences-heappush a h j, e)
  | inr e ↦ ground (arith, e)
]

pub waiting-pop_from :
    (h : List PriorityItem) (r : List ℕ) (i : ℕ)
    → (pop_from h r).0 ≡ some i
    → (j : ℕ)
    → waiting_in h r j ≡ (
        if i == j
        then waiting_in (pop_from h r).1.heap (pop_from h r).1.removed j + 1
        else waiting_in (pop_from h r).1.heap (pop_from h r).1.removed j)
unfolding pop_from waiting_in
waiting-pop_from [] r i e j = ground arith
waiting-pop_from (x ∷ h) r i e j = elim (Bool-cases (contains r x.task_id)) [
  | inl c ↦ ground (
    arith,
    c,
    contains-discard x.task_id r j,
    waiting-pop_from h (discard x.task_id r) i (ground (arith, c)) j,
  )
  | inr c ↦ ground (arith, c)
]

pub waiting-push :
    (i : ℕ) (p : ℤ) (t : ℕ) (q : PriorityQueue) (j : ℕ)
    → contains q.removed i ≡ false
    → waiting_in (push i p t q).heap (push i p t q).removed j
      ≡ (if i == j then waiting_in q.heap q.removed j + 1 else waiting_in q.heap q.removed j)
unfolding push waiting_in
waiting-push i p t q j h =
    ground
      (arith, occurrences-heappush (record { priority = p; enqueued_at = t; task_id = i }) q.heap j)

pub waiting-remove :
    (i : ℕ) (q : PriorityQueue) (j : ℕ)
    → contains q.removed i ≡ false
    → waiting_in (remove i q).1.heap (remove i q).1.removed j
      ≡ (if i == j then waiting_in q.heap q.removed j - 1 else waiting_in q.heap q.removed j)
unfolding remove waiting_in
waiting-remove i q j h = ground (arith, contains-add i q.removed j)

pub waiting-pop_from-none :
    (h : List PriorityItem) (r : List ℕ)
    → (pop_from h r).0 ≡ none
    → (j : ℕ)
    → (waiting_in h r j ≡ 0) × (waiting_in (pop_from h r).1.heap (pop_from h r).1.removed j ≡ 0)
unfolding pop_from waiting_in
waiting-pop_from-none [] r e j = (ground arith, ground arith)
waiting-pop_from-none (x ∷ h) r e j = elim (Bool-cases (contains r x.task_id)) [
  | inl c ↦ ground (
    arith,
    c,
    contains-discard x.task_id r j,
    waiting-pop_from-none h (discard x.task_id r) (ground (arith, c)) j,
  )
  | inr c ↦ ground (arith, c)
]

pub blocked-pop_from :
    (h : List PriorityItem) (r : List ℕ) (j : ℕ)
    → contains (pop_from h r).1.removed j ≡ true
    → contains r j ≡ true
unfolding pop_from
blocked-pop_from [] r j e = e
blocked-pop_from (x ∷ h) r j e = elim (Bool-cases (contains r x.task_id)) [
  | inl c ↦ ground (
    arith,
    c,
    contains-discard x.task_id r j,
    blocked-pop_from h (discard x.task_id r) j (ground (arith, c)),
  )
  | inr c ↦ ground (arith, c)
]

waiting-nil : (i : ℕ) → waiting_in [] [] i ≡ 0
unfolding waiting_in contains
waiting-nil i = refl

contains-nil : (i : ℕ) → contains [] i ≡ false
unfolding contains
contains-nil i = refl

blocked-remove :
    (i : ℕ) (q : PriorityQueue) (j : ℕ)
    → contains (remove i q).1.removed j ≡ true
    → (i ≡ j) ⊎ (contains q.removed j ≡ true)
unfolding remove
blocked-remove i q j h = ground (arith, contains-add i q.removed j)

removed-push :
    (i : ℕ) (p : ℤ) (t : ℕ) (q : PriorityQueue) (j : ℕ)
    → contains (push i p t q).removed j ≡ contains q.removed j
unfolding push
removed-push i p t q j = refl

-- The queue behind its interface: a push of a task that stands in `_removed` may be swallowed.
pub priority_queue : TaskQueue
unfolding pop
priority_queue = record {
  Q = PriorityQueue;
  empty = record { heap = []; removed = [] };
  push = push;
  pop = pop;
  remove = remove;
  qsize = qsize;
  waiting = λ q. waiting_in q.heap q.removed;
  blocked = λ q. contains q.removed;
  waiting-empty = waiting-nil;
  blocked-empty = contains-nil;
  waiting-push = waiting-push;
  blocked-push = removed-push;
  waiting-remove = waiting-remove;
  blocked-remove = blocked-remove;
  waiting-pop = λ q. waiting-pop_from q.heap q.removed;
  waiting-pop_none = λ q. waiting-pop_from-none q.heap q.removed;
  blocked-pop = λ q. blocked-pop_from q.heap q.removed;
}
