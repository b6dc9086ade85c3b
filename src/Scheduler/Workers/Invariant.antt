-- ===== src/Scheduler/Workers/Invariant.antt =====
-- Every reachable state of the scheduler and its workers is sound: each task has its standing.
use enterprise_ai_agent.Prelude.{
  ℕ, ◌+◌, ◌≤◌, ◌≡◌, Option, none, some, List, [], ◌∷◌, ◌++◌, ◌==◌, if◌then◌else◌, arith,
  Option-cases, inl, inr,
}
use enterprise_ai_agent.Prelude.Dict.{lookup, lookup-nil}
use enterprise_ai_agent.Scheduler.Queue.{TaskQueue}
use enterprise_ai_agent.Scheduler.Core.{Scheduler, init, set_executor}
use enterprise_ai_agent.Scheduler.Core.Records.{
  Ran, TaskRecord, Payload, is_pending, is_running, is_terminal,
}
use enterprise_ai_agent.Scheduler.Core.Standing.{At}
use enterprise_ai_agent.Scheduler.Core.Standing.Keeps.{
  submit-At, cancel-At, begin-At, prepare-At, check_cancelled-At, conclude-At,
}
use enterprise_ai_agent.Scheduler.Workers.{
  Stage, claimed, started, executing, checked, advance, resume_with, System, Step, submits, cancels,
  configures, claims, waits, works, Reach, here, next,
}

-- Whether a stage is before the begin of task `i`, and whether it is after it.
abbrev pub claim_of : Stage → ℕ → ℕ
claim_of (claimed i) j = if i == j then 1 else 0
claim_of (started i) j = 0
claim_of (executing i) j = 0
claim_of (checked i ran) j = 0

abbrev pub run_of : Stage → ℕ → ℕ
run_of (claimed i) j = 0
run_of (started i) j = if i == j then 1 else 0
run_of (executing i) j = if i == j then 1 else 0
run_of (checked i ran) j = if i == j then 1 else 0

-- How many workers have claimed a task, and how many run it.
abbrev pub claims_of : List Stage → ℕ → ℕ
claims_of [] j = 0
claims_of (p ∷ ps) j = claim_of p j + claims_of ps j

abbrev pub runs_of : List Stage → ℕ → ℕ
runs_of [] j = 0
runs_of (p ∷ ps) j = run_of p j + runs_of ps j

pub claims_of-append :
    (ps qs : List Stage) (j : ℕ) → claims_of (ps ++ qs) j ≡ claims_of ps j + claims_of qs j
claims_of-append [] qs j = omega arith
claims_of-append (p ∷ ps) qs j = omega (arith, claims_of-append ps qs j)

pub runs_of-append :
    (ps qs : List Stage) (j : ℕ) → runs_of (ps ++ qs) j ≡ runs_of ps j + runs_of qs j
runs_of-append [] qs j = omega arith
runs_of-append (p ∷ ps) qs j = omega (arith, runs_of-append ps qs j)

pub record IsSound {tq : TaskQueue} {Work : Type 0} (s : System tq Work) : Type 0 where
  pub at : (j : ℕ) → At s.scheduler j (claims_of s.busy j) (runs_of s.busy j)

abbrev claim_left : Option Stage → ℕ → ℕ
claim_left none j = 0
claim_left (some p) j = claim_of p j

abbrev run_left : Option Stage → ℕ → ℕ
run_left none j = 0
run_left (some p) j = run_of p j

module _ {tq : TaskQueue} {Work : Type 0} where
  -- A task that some worker runs has no other worker.
  in_hand :
      (s : Scheduler tq Work) (i c n : ℕ) → 1 ≤ n → At s i c n → (c ≡ 0) × (n ≡ 1) × At s i 0 1
  unfolding is_pending is_running is_terminal
  in_hand s i c n k h = elim (Option-cases (lookup i s.records)) [
    | inl e ↦ ground (arith, e)
    | inr (x, e) ↦ ground (arith, e)
  ]

  -- A worker's section keeps the standing of every task, beside `c` claims and `n` runs of others.
  advance-At :
      (p : Stage) (ran : Ran) (now : ℕ) (s : Scheduler tq Work) (c n : ℕ → ℕ)
      → ((j : ℕ) → At s j (claim_of p j + c j) (run_of p j + n j))
      → (j : ℕ)
      → At
          (advance p ran now s).1
          j
          (claim_left (advance p ran now s).0 j + c j)
          (run_left (advance p ran now s).0 j + n j)
  unfolding advance
  advance-At (claimed i) ran now s c n h j =
      ground
        (arith, begin-At s i now j (claim_of (claimed i) j + c j) (0 + n j) (ground arith) (h j))
  advance-At (started i) ran now s c n h j =
      let (_, alone, hi) = in_hand s i _ _ (ground arith) (h i) in
      ground (arith, alone, prepare-At s i now j (0 + c j) (run_of (started i) j + n j) hi (h j))
  advance-At (executing i) ran now s c n h j =
      let (_, alone, hi) = in_hand s i _ _ (ground arith) (h i) in
      ground (
        arith,
        alone,
        check_cancelled-At s i now j (0 + c j) (run_of (executing i) j + n j) ran hi (h j),
      )
  advance-At (checked i ran) _ now s c n h j =
      let (_, alone, hi) = in_hand s i _ _ (ground arith) (h i) in
      ground (
        arith,
        alone,
        conclude-At s i now j (0 + c j) (run_of (checked i ran) j + n j) ran hi (h j),
      )

  works-IsSound :
      (s : System tq Work) (left right : List Stage) (p : Stage) (ran : Ran) (now : ℕ)
      → s.busy ≡ left ++ (p ∷ right)
      → IsSound s
      → (j : ℕ)
      → At
          (advance p ran now s.scheduler).1
          j
          (claims_of (left ++ resume_with (advance p ran now s.scheduler).0 right) j)
          (runs_of (left ++ resume_with (advance p ran now s.scheduler).0 right) j)
  unfolding resume_with
  works-IsSound s left right p ran now e h j = ground (
    arith,
    claims_of-append left (resume_with (advance p ran now s.scheduler).0 right) j,
    runs_of-append left (resume_with (advance p ran now s.scheduler).0 right) j,
    advance-At p ran now s.scheduler (λ k. claims_of left k + claims_of right k)
        (λ k. runs_of left k + runs_of right k)
        (λ k. ground (
          arith,
          e,
          h.at k,
          claims_of-append left (p ∷ right) k,
          runs_of-append left (p ∷ right) k,
        ))
        j,
  )

  claims-IsSound :
      (s : System tq Work) (i : ℕ)
      → (tq.pop s.scheduler.queue).0 ≡ some i
      → IsSound s
      → (j : ℕ)
      → At
          (record (s.scheduler) { queue = (tq.pop s.scheduler.queue).1 })
          j
          (claims_of (claimed i ∷ s.busy) j)
          (runs_of (claimed i ∷ s.busy) j)
  unfolding is_pending is_running is_terminal
  claims-IsSound s i e h j =
      let facts = h.at j in
      ground
        (arith, facts, tq.waiting-pop s.scheduler.queue i e j, tq.blocked-pop s.scheduler.queue j)

  -- Every step keeps a sound state sound.
  pub Step-IsSound : {s t : System tq Work} → Step s t → IsSound s → IsSound t
  Step-IsSound (submits s i work p time m now new) h = record {
    at = λ j. submit-At s.scheduler i now j _ _ work p time m new (h.at i) (h.at j);
  }
  Step-IsSound (cancels s i now) h = record {
    at = λ j. cancel-At s.scheduler i now j _ _ (h.at i) (h.at j);
  }
  Step-IsSound (configures s) h = record { at = unfold set_executor in h.at }
  Step-IsSound (claims s i room e) h = record { at = claims-IsSound s i e h }
  Step-IsSound (waits s e) h = record {
    at = λ j. ground (
      arith,
      h.at j,
      tq.waiting-pop_none s.scheduler.queue e j,
      tq.blocked-pop s.scheduler.queue j,
    );
  }
  Step-IsSound (works s left right p ran now e) h = record {
    at = works-IsSound s left right p ran now e h;
  }

  init-IsSound :
      (workers : ℕ)
      → IsSound {tq = tq} {Work = Work}
          (record { scheduler = init; busy = []; worker_count = workers })
  unfolding init
  init-IsSound workers = record {
    at = λ j. ground (
      arith,
      lookup-nil TaskRecord j,
      lookup-nil (Payload Work) j,
      tq.waiting-empty j,
      tq.blocked-empty j,
    );
  }

  -- Every state that the scheduler with an empty queue, no task and no busy worker can reach, by
  -- submissions, cancellations and sections of its workers in any order, is sound: among others, a
  -- PENDING task is in the queue once or claimed by one worker, a RUNNING task has one worker, and
  -- the event of a task is set exactly when its status is final.
  pub Reach-IsSound :
      (workers : ℕ) {s : System tq Work}
      → Reach (record { scheduler = init; busy = []; worker_count = workers }) s
      → IsSound s
  Reach-IsSound workers here = init-IsSound workers
  Reach-IsSound workers (next r st) = Step-IsSound st (Reach-IsSound workers r)
