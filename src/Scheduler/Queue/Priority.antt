-- ===== src/Scheduler/Queue/Priority.antt =====
-- `PriorityTaskQueue` of backend/app/scheduler/queue.py: a heap, and a set of removed ids.
--
-- `heapq` is the standard library's: the heap is the list of its items in the order in which
-- `heappop` gives them. Two items with equal sort keys have equal task ids, so that order is
-- determined. The sort key (-priority, enqueued_at, task_id) is compared field by field.
pub mod Laws
pub mod Order
use enterprise_ai_agent.Prelude.{
  ℕ, ◌+◌, ◌-◌, ◌≡◌, refl, Bool, true, false, Option, none, some, List, [], ◌∷◌, ◌==◌, ltb, length,
  if◌then◌else◌, arith, inl, inr, Bool-cases, ◌⊎◌,
}
use enterprise_ai_agent.Prelude.Int.{ℤ, ltb_ℤ}
use enterprise_ai_agent.Scheduler.Queue.Interface.{TaskQueue}

-- `_PriorityItem`: the fields of its sort key, with the priority before its sign is changed.
pub record PriorityItem : Type 0 where
  pub priority : ℤ
  pub enqueued_at : ℕ
  pub task_id : ℕ

pub record PriorityQueue : Type 0 where
  pub heap : List PriorityItem
  pub removed : List ℕ

-- `a < b` of the tuples (-priority, enqueued_at, task_id).
unfoldable pub before : PriorityItem → PriorityItem → Bool
before a b =
    if ltb_ℤ b.priority a.priority
    then true
    else if ltb_ℤ a.priority b.priority
    then false
    else if ltb a.enqueued_at b.enqueued_at
    then true
    else if ltb b.enqueued_at a.enqueued_at
    then false
    else ltb a.task_id b.task_id

unfoldable pub heappush : PriorityItem → List PriorityItem → List PriorityItem
heappush a [] = a ∷ []
heappush a (b ∷ h) = if before b a then b ∷ heappush a h else a ∷ b ∷ h

unfoldable pub contains : List ℕ → ℕ → Bool
contains [] i = false
contains (x ∷ xs) i = if x == i then true else contains xs i

-- `set.add` and `set.discard` on a set kept without duplicates.
unfoldable pub add : ℕ → List ℕ → List ℕ
add i xs = if contains xs i then xs else i ∷ xs

unfoldable pub discard : ℕ → List ℕ → List ℕ
discard i [] = []
discard i (x ∷ xs) = let rest = discard i xs in if x == i then rest else x ∷ rest

unfoldable pub push : ℕ → ℤ → ℕ → PriorityQueue → PriorityQueue
push task_id priority enqueued_at q = record q {
  heap =
      heappush (record { priority = priority; enqueued_at = enqueued_at; task_id = task_id })
        q.heap;
}

-- The loop of `pop`, which stops at the first item that is not removed.
unfoldable pub pop_from : List PriorityItem → List ℕ → Option ℕ × PriorityQueue
pop_from [] removed = (none, record { heap = []; removed = removed })
pop_from (item ∷ heap) removed = elim (contains removed item.task_id) [
  | true ↦ pop_from heap (discard item.task_id removed)
  | false ↦ (some item.task_id, record { heap = heap; removed = removed })
]

unfoldable pub pop : PriorityQueue → Option ℕ × PriorityQueue
pop q = pop_from q.heap q.removed

unfoldable pub remove : ℕ → PriorityQueue → Bool × PriorityQueue
remove task_id q = (true, record q { removed = add task_id q.removed })

unfoldable pub qsize : PriorityQueue → ℕ
qsize q = length q.heap

unfoldable pub occurrences : List PriorityItem → ℕ → ℕ
occurrences [] i = 0
occurrences (item ∷ heap) i =
    if item.task_id == i then occurrences heap i + 1 else occurrences heap i

-- How often `pop` will still hand out the task: the next of its items is dropped if it is removed.
unfoldable pub waiting_in : List PriorityItem → List ℕ → ℕ → ℕ
unfolding occurrences
waiting_in heap removed i =
    if contains removed i then occurrences heap i - 1 else occurrences heap i
