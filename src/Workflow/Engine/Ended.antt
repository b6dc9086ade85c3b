-- ===== src/Workflow/Engine/Ended.antt =====
-- What a run has come to when `_execute_loop` of backend/app/workflow/executor.py is left.
use enterprise_ai_agent.Prelude.{
  ℕ, suc, ◌+◌, ◌≤◌, ◌<◌, ◌≡◌, refl, sym, subst, Bool, ap, ◌∙◌, true, false, List, [], ◌∷◌, ◌++◌,
  String, length, length-append, arith,
}
use enterprise_ai_agent.Prelude.Text.{occ, occ-append, length-le_of_occ, occ-le_of_length}
use enterprise_ai_agent.Prelude.TextDict.{TextDict, keys}
use enterprise_ai_agent.Workflow.Graph.{WorkflowGraph, Raises, ok, raised}
use enterprise_ai_agent.Workflow.Value.{Python}
use enterprise_ai_agent.Workflow.Context.{RunStatus}
use enterprise_ai_agent.Workflow.Execute.Refused.{Refuses}
use enterprise_ai_agent.Workflow.Engine.{ActiveRun, is_empty, is_running, close}
use enterprise_ai_agent.Workflow.Engine.Resolve.{res, IsRun}
use enterprise_ai_agent.Workflow.Engine.Skips.{Same}
use enterprise_ai_agent.Workflow.Engine.Visits.{IsRun-same, is_halted}
use enterprise_ai_agent.Workflow.Engine.Rounds.{Rounded}

pub length-keys {ℓ} : {V : Type ℓ} (d : TextDict V) → length (keys d) ≡ length d
unfolding keys
length-keys [] = refl
length-keys ((k, v) ∷ d) = omega (arith, length-keys d)

abbrev pub done_count : ActiveRun → ℕ
done_count a = length a.completed + length a.skipped

occ-done : (a : ActiveRun) (n : String) → occ n (a.completed ++ a.skipped) ≡ res a n
occ-done a n = occ-append n a.completed a.skipped

pub done_count-le : (a : ActiveRun) → IsRun a → done_count a ≤ length a.graph.nodes
done_count-le a h = omega (
  arith,
  length-le_of_occ (a.completed ++ a.skipped) (keys a.graph.nodes)
      (λ n. omega (arith, occ-done a n, h.within n)),
  length-append a.completed a.skipped,
  length-keys a.graph.nodes,
)

-- What a run has come to when the loop is left: only nodes are resolved, none before the sources of its
-- unconditional edges, and a run that ends as COMPLETED has resolved every node. It is not RUNNING if
-- the loop has returned; if it has raised, it is, and a node of the graph is refused with the exception.
pub record Ended (py : Python) (a : ActiveRun) (left : Raises (Unit {0})) (b : ActiveRun)
    : Type 0 where
  pub graph : b.graph ≡ a.graph
  pub is_run : IsRun b
  pub not_running : left ≡ ok tt → is_running b.status ≡ false
  pub refuses : (e : String) → left ≡ raised e → (is_running b.status ≡ true) × Refuses py b.graph e
  pub all_resolved :
      is_running a.status ≡ true
      → b.status ≡ RunStatus.completed
      → (n : String) → 1 ≤ occ n (keys b.graph.nodes)
      → 1 ≤ res b n

close-same :
    (a : ActiveRun)
    → ((close a).graph ≡ a.graph)
      × ((close a).completed ≡ a.completed)
      × ((close a).skipped ≡ a.skipped)
      × (is_running (close a).status ≡ false)
      × ((close a).status ≡ RunStatus.completed → done_count a ≡ length a.graph.nodes)
unfolding close
close-same a = (ground arith, ground arith, ground arith, ground arith, λ e. ground (arith, e))

pub close-Ended : (py : Python) (a : ActiveRun) → IsRun a → Ended py a (ok tt) (close a)
close-Ended py a h =
    let (g, c, s, ended, counted) = close-same a in
    record {
      graph = g;
      is_run = IsRun-same g c s h;
      not_running = λ x. ended;
      refuses = λ m x. cc;
      all_resolved = λ r e n k.
          let all =
            occ-le_of_length (a.completed ++ a.skipped) (keys a.graph.nodes)
              (λ m. omega (arith, occ-done a m, h.within m))
              (omega
                (arith, length-append a.completed a.skipped, length-keys a.graph.nodes, counted e))
              n in
          ground (arith, all, occ-done a n, g, c, s, k);
    }

raised-inj : {x e : String} → ◌≡◌ {A = Raises (Unit {0})} (raised x) (raised e) → x ≡ e
raised-inj h = cc

-- A round does not change that the run is RUNNING, so what follows it counts for the run.
pub Ended-after :
    {py : Python} {a a' b : ActiveRun} {left : Raises (Unit {0})}
    → Same a a'
    → Ended py a' left b
    → Ended py a left b
Ended-after s e = record {
  graph = e.graph ∙ s.graph;
  is_run = e.is_run;
  not_running = e.not_running;
  refuses = e.refuses;
  all_resolved = λ r. e.all_resolved (ground (arith, s.status, r));
}

-- A round over a ready node uses up fuel no faster than nodes.
pub more_room :
    {a b c : ActiveRun} (ns : List String) (fuel : ℕ)
    → Same a b
    → Same b c
    → is_empty ns ≡ false
    → done_count c ≡ length ns + done_count b
    → length a.graph.nodes < suc fuel + done_count a
    → length c.graph.nodes < fuel + done_count c
more_room [] fuel s t e k m = cc
more_room {a} {b} {c} (n ∷ ns) fuel s t e k m =
    let same : length c.graph.nodes ≡ length a.graph.nodes =
      ap (λ (g : WorkflowGraph). length g.nodes) (t.graph ∙ s.graph) in
    omega (arith, same, s.grows)

pub halted-Ended :
    {py : Python} {a b : ActiveRun}
    → IsRun b
    → b.graph ≡ a.graph
    → is_halted b.status ≡ true
    → Ended py a (ok tt) b
halted-Ended h g e = record {
  graph = g;
  is_run = h;
  not_running = λ x. ground (arith, e);
  refuses = λ m x. cc;
  all_resolved = λ r c. absurd (ground (arith, e, c));
}

pub refused-Ended :
    {py : Python} {ns : List String} {a b : ActiveRun} {left : Raises Bool}
    → Rounded py ns a b left
    → is_running a.status ≡ true
    → (e : String) → left ≡ raised e
    → Ended py a (raised e) b
refused-Ended {py} {a = a} {b} r live e h =
    let (same_status, refused) = r.refuses e h in
    record {
      graph = r.graph;
      is_run = r.is_run;
      not_running = λ x. cc;
      refuses = λ m x. (
        ground (arith, same_status, live),
        subst (λ n. Refuses py b.graph n) (raised-inj x)
            (subst (λ g. Refuses py g e) (sym r.graph) refused),
      );
      all_resolved = λ x y. absurd (ground (arith, same_status, live, y));
    }
