-- ===== src/Scheduler/Workers/Final.antt =====
-- What the scheduler promises about a task over time.
use enterprise_ai_agent.Prelude.{ℕ, ◌≤◌, ◌≡◌, true, false, ◌∷◌, arith}
use enterprise_ai_agent.Prelude.Dict.{lookup}
use enterprise_ai_agent.Scheduler.Queue.{TaskQueue}
use enterprise_ai_agent.Scheduler.Core.{Scheduler, set_executor, cancel}
use enterprise_ai_agent.Scheduler.Core.Records.{Ran}
use enterprise_ai_agent.Scheduler.Core.Standing.{At, waits, runs, ended, flagged}
use enterprise_ai_agent.Scheduler.Core.Follows.{
  Follows, cancel-flagged, Follows-refl, submit-After, cancel-After, begin-After, prepare-After,
  check_cancelled-After, conclude-After,
}
use enterprise_ai_agent.Scheduler.Workers.{
  Stage, claimed, started, executing, checked, advance, System, Step, submits, cancels, configures,
  claims, waits as idles, works, Reach, here, next,
}
use enterprise_ai_agent.Scheduler.Workers.Invariant.{IsSound, Step-IsSound, run_of, runs_of-append}

module _ {tq : TaskQueue} {Work : Type 0} where
  -- A stage of a run, as a test.
  in_run :
      (s : Scheduler tq Work) (i c n : ℕ) → 1 ≤ n → At s i c n → runs (lookup i s.records) ≡ true
  in_run s i c n k h = ground (arith, h.one_runner)

  advance-Follows :
      (p : Stage) (ran : Ran) (now : ℕ) (s : Scheduler tq Work) (j : ℕ)
      → ((i : ℕ) → 1 ≤ run_of p i → runs (lookup i s.records) ≡ true)
      → Follows (lookup j s.records) (lookup j (advance p ran now s).1.records)
  unfolding advance
  advance-Follows (claimed i) ran now s j r = begin-After s i now j
  advance-Follows (started i) ran now s j r = prepare-After s i now j (r i (ground arith))
  advance-Follows (executing i) ran now s j r =
      check_cancelled-After s i now j ran (r i (ground arith))
  advance-Follows (checked i ran) _ now s j r = conclude-After s i now j ran (r i (ground arith))

  Step-Follows :
      {s t : System tq Work}
      → Step s t
      → IsSound s
      → (j : ℕ) → Follows (lookup j s.scheduler.records) (lookup j t.scheduler.records)
  Step-Follows (submits s i work p time m now new) h j =
      submit-After s.scheduler i now j work p time m new
  Step-Follows (cancels s i now) h j = cancel-After s.scheduler i now j
  Step-Follows (configures s) h j = unfold set_executor in Follows-refl _
  Step-Follows (claims s i room e) h j = Follows-refl _
  Step-Follows (idles s e) h j = Follows-refl _
  Step-Follows (works s left right p ran now e) h j = advance-Follows p ran now s.scheduler j λ i k.
      in_run s.scheduler i _ _ (ground (arith, e, k, runs_of-append left (p ∷ right) i)) (h.at i)

  -- A step, and so any run, keeps what a record has that is final or flagged.
  pub Reach-Follows :
      {s t : System tq Work}
      → Reach s t
      → IsSound s
      → (j : ℕ) → IsSound t × Follows (lookup j s.scheduler.records) (lookup j t.scheduler.records)
  Reach-Follows here h j = (h, Follows-refl _)
  Reach-Follows (next r st) h j =
      let (m, f) = Reach-Follows r h j in
      let g = Step-Follows st m j in (Step-IsSound st m, ground (arith, f, g))

  -- From a sound state, whatever clients and workers do, the record of a task whose status is final
  -- (SUCCESS, FAILED, TIMEOUT or CANCELLED) is never changed again.
  pub Reach-final :
      {s t : System tq Work} (j : ℕ)
      → IsSound s
      → Reach s t
      → ended (lookup j s.scheduler.records) ≡ true
      → lookup j t.scheduler.records ≡ lookup j s.scheduler.records
  Reach-final j h r e = (Reach-Follows r h j).1.final e

  -- After a `cancel` that returned True in a sound state the task is flagged as cancelled and is not
  -- PENDING, now and in every later state: no worker begins it any more.
  pub Reach-cancel :
      (s : System tq Work) {t : System tq Work} (i now : ℕ)
      → IsSound s
      → (cancel i now s.scheduler).0 ≡ true
      → Reach (record s { scheduler = (cancel i now s.scheduler).1 }) t
      → (flagged (lookup i t.scheduler.records) ≡ true)
        × (waits (lookup i t.scheduler.records) ≡ false)
  Reach-cancel s i now h e r =
      let k = Step-IsSound (cancels s i now) h in
      let (m, f) = Reach-Follows r k i in
      let a = (m.at i).uncancelled in
      let (b, _) = f.flag (cancel-flagged i now s.scheduler e) in (b, ground (arith, a, b))
