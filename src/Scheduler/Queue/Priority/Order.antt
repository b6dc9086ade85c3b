-- ===== src/Scheduler/Queue/Priority/Order.antt =====
-- The order in which the priority queue hands tasks out.
use mathlib.Core.List.{Memᴰ}
use enterprise_ai_agent.Prelude.{
  ℕ, ◌≡◌, refl, true, false, none, some, List, [], ◌∷◌, arith, inl, inr, Bool-cases, All,
}
use enterprise_ai_agent.Prelude.Int.{ℤ}
use enterprise_ai_agent.Scheduler.Queue.Priority.Laws.{contains-discard, contains-add}
use enterprise_ai_agent.Scheduler.Queue.Priority.{
  PriorityItem, PriorityQueue, before, heappush, contains, discard, push, pop_from, pop, remove,
}

-- No later item goes before an earlier one.
abbrev pub IsHeap : List PriorityItem → Type 0
IsHeap [] = Unit
IsHeap (a ∷ h) = All (λ b. before b a ≡ false) h × IsHeap h

before_asymm : (a b : PriorityItem) → before a b ≡ true → before b a ≡ false
unfolding before
before_asymm a b h = ground arith

not-before_trans :
    (a b c : PriorityItem) → before b a ≡ false → before c b ≡ false → before c a ≡ false
unfolding before
not-before_trans a b c h k = ground arith

All-not-before :
    (a b : PriorityItem) (h : List PriorityItem)
    → before b a ≡ false
    → All (λ c. before c b ≡ false) h
    → All (λ c. before c a ≡ false) h
All-not-before a b [] e k = tt
All-not-before a b (c ∷ h) e k = (not-before_trans a b c e k.0, All-not-before a b h e k.1)

All-heappush :
    (a b : PriorityItem) (h : List PriorityItem)
    → before b a ≡ false
    → All (λ c. before c a ≡ false) h
    → All (λ c. before c a ≡ false) (heappush b h)
unfolding heappush
All-heappush a b [] e k = (e, tt)
All-heappush a b (c ∷ h) e k = elim (Bool-cases (before c b)) [
  | inl l ↦ rw l (k.0, All-heappush a b h e k.1)
  | inr g ↦ rw g (e, k)
]

-- `heappush` keeps the heap in order.
pub heappush-IsHeap : (a : PriorityItem) (h : List PriorityItem) → IsHeap h → IsHeap (heappush a h)
unfolding heappush
heappush-IsHeap a [] k = (tt, tt)
heappush-IsHeap a (b ∷ h) k = elim (Bool-cases (before b a)) [
  | inl l ↦ rw l (All-heappush b a h (before_asymm b a l) k.0, heappush-IsHeap a h k.1)
  | inr g ↦ rw g ((g, All-not-before a b h g k.0), k)
]

-- The item that `pop` hands out stands in the heap, and no item of the heap that is not removed
-- goes before it.
pub record Handed (h : List PriorityItem) (removed : List ℕ) (i : ℕ) : Type 0 where
  pub item : PriorityItem
  pub stands : Memᴰ item h
  pub named : item.task_id ≡ i
  pub first : All (λ b. contains removed b.task_id ≡ false → before b item ≡ false) h

before_irrefl : (a : PriorityItem) → before a a ≡ false
unfolding before
before_irrefl a = ground arith

All-not-removed :
    (a : PriorityItem) (r : List ℕ) (h : List PriorityItem)
    → All (λ b. before b a ≡ false) h
    → All (λ b. contains r b.task_id ≡ false → before b a ≡ false) h
All-not-removed a r [] k = tt
All-not-removed a r (b ∷ h) k = ((λ _. k.0), All-not-removed a r h k.1)

All-discard :
    (a : PriorityItem) (j : ℕ) (r : List ℕ) (h : List PriorityItem)
    → All (λ b. contains (discard j r) b.task_id ≡ false → before b a ≡ false) h
    → All (λ b. contains r b.task_id ≡ false → before b a ≡ false) h
All-discard a j r [] k = tt
All-discard a j r (b ∷ h) k =
    ((λ e. k.0 (ground (arith, contains-discard j r b.task_id, e))), All-discard a j r h k.1)

pop_from-Handed :
    (h : List PriorityItem) (r : List ℕ) (i : ℕ)
    → IsHeap h
    → (pop_from h r).0 ≡ some i
    → Handed h r i
unfolding pop_from
pop_from-Handed [] r i k e = cc
pop_from-Handed (x ∷ h) r i k e = elim (Bool-cases (contains r x.task_id)) [
  | inl c ↦
      let next = pop_from-Handed h (discard x.task_id r) i k.1 (rw (c, pop_from) at e) in
      record {
        item = next.item;
        stands = Memᴰ.tail next.stands;
        named = next.named;
        first = ((λ f. cc), All-discard next.item x.task_id r h next.first);
      }
  | inr c ↦ record {
    item = x;
    stands = Memᴰ.head refl;
    named = ground (arith, c);
    first = ((λ _. before_irrefl x), All-not-removed x r h k.0);
  }
]

pop_from-IsHeap : (h : List PriorityItem) (r : List ℕ) → IsHeap h → IsHeap (pop_from h r).1.heap
unfolding pop_from
pop_from-IsHeap [] r k = tt
pop_from-IsHeap (x ∷ h) r k = elim (Bool-cases (contains r x.task_id)) [
  | inl c ↦ rw (c, pop_from) (pop_from-IsHeap h (discard x.task_id r) k.1)
  | inr c ↦ rw (c, pop_from) k.1
]

-- The queues that the methods make of the empty one.
pub data Built : PriorityQueue → Type 0 where
  unused : Built (record { heap = []; removed = [] })
  pushed : {q : PriorityQueue} (i : ℕ) (p : ℤ) (t : ℕ) → Built q → Built (push i p t q)
  popped : {q : PriorityQueue} → Built q → Built (pop q).1
  dropped : {q : PriorityQueue} (i : ℕ) → Built q → Built (remove i q).1

Built-IsHeap : {q : PriorityQueue} → Built q → IsHeap q.heap
unfolding push pop remove
Built-IsHeap unused = tt
Built-IsHeap (pushed {q} i p t b) =
    heappush-IsHeap (record { priority = p; enqueued_at = t; task_id = i }) q.heap (Built-IsHeap b)
Built-IsHeap (popped {q} b) = pop_from-IsHeap q.heap q.removed (Built-IsHeap b)
Built-IsHeap (dropped i b) = Built-IsHeap b

-- From a queue that `push`, `pop` and `remove` have made of the empty one, a task that `pop` hands out
-- stands in the heap, and no waiting task that is not removed goes before it in (-priority,
-- enqueued_at, task_id).
pub pop-Handed :
    {q : PriorityQueue} (i : ℕ) → Built q → (pop q).0 ≡ some i → Handed q.heap q.removed i
unfolding pop
pop-Handed {q} i b e = pop_from-Handed q.heap q.removed i (Built-IsHeap b) e

-- A task that was removed while it was not queued is swallowed when it is pushed: on a queue with an
-- empty heap, `pop` after `remove` and `push` of one task finds nothing.
pub pop-push-remove :
    (i : ℕ) (p : ℤ) (t : ℕ) (q : PriorityQueue)
    → q.heap ≡ []
    → (pop (push i p t (remove i q).1)).0 ≡ none
unfolding pop push remove pop_from heappush
pop-push-remove i p t q e = ground (arith, contains-add i q.removed i, e)
