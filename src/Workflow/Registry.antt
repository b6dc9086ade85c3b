-- ===== src/Workflow/Registry.antt =====
-- `WorkflowRegistry` of backend/app/workflow/registry.py.
--
-- The registry holds each graph as it was when it was registered; a client that changes a graph that
-- it has registered is not followed.
use Prim.Native.String.{◌++◌ as str_append}
use enterprise_ai_agent.Prelude.{◌≡◌, ◌≢◌, Bool, false, ◌&&◌, not, none, some, List, String, arith}
use enterprise_ai_agent.Prelude.Text.{str_eq, eq_iff, sort}
use enterprise_ai_agent.Prelude.TextDict.{
  TextDict, lookup, insert, erase, keys, known, lookup-insert, lookup-erase,
}
use enterprise_ai_agent.Workflow.Graph.{WorkflowGraph, Raises, ok, raised, ◌>>◌, require, validate}

abbrev pub Graphs : Type 0
Graphs = TextDict WorkflowGraph

unfoldable pub register : WorkflowGraph → (overwrite : Bool) → Graphs → Raises Graphs
register graph overwrite graphs = do
  require (not (known (lookup graph.id graphs) && not overwrite))
      (str_append "Workflow '" (str_append graph.id "' already registered"))
  validate graph
  ok (insert graph.id graph graphs)

-- `shown` is Python's rendering of the list of the known ids in the message.
unfoldable pub get : (shown : List String → String) → String → Graphs → Raises WorkflowGraph
get shown workflow_id graphs = elim (lookup workflow_id graphs) [
  | none ↦ raised (
      str_append "Workflow '" (
        str_append workflow_id
          (str_append "' not found. Registered: " (shown (sort (keys graphs))))))
  | some g ↦ ok g
]

unfoldable pub list_ids : Graphs → List String
list_ids graphs = sort (keys graphs)

unfoldable pub unregister : String → Graphs → Graphs
unregister workflow_id graphs = erase workflow_id graphs

-- Every graph stands under its id and passes `validate`.
pub record IsRegistry (graphs : Graphs) : Type 0 where
  pub holds :
      (k : String) (g : WorkflowGraph)
      → lookup k graphs ≡ some g
      → (g.id ≡ k) × (validate g ≡ ok tt)

-- What a registration that does not raise leaves: the graph is found under its id, every other id is
-- as before, and unless it may overwrite, the id was free.
pub record Registered (graph : WorkflowGraph) (overwrite : Bool) (graphs graphs' : Graphs)
    : Type 0 where
  pub is_registry : IsRegistry graphs'
  pub found : (shown : List String → String) → get shown graph.id graphs' ≡ ok graph
  pub others : (k : String) → str_eq graph.id k ≡ false → lookup k graphs' ≡ lookup k graphs
  pub was_free : overwrite ≡ false → lookup graph.id graphs ≡ none

-- `register`, where it does not raise, keeps the registry sound: every graph in it stands under its id
-- and passes `validate`. The graph is then found under its id, the other ids give what they gave, and
-- without `overwrite` the id was free.
pub register-Registered :
    (graph : WorkflowGraph) (overwrite : Bool) (graphs graphs' : Graphs)
    → IsRegistry graphs
    → register graph overwrite graphs ≡ ok graphs'
    → Registered graph overwrite graphs graphs'
unfolding register get
register-Registered graph overwrite graphs graphs' h e =
    let valid : validate graph ≡ ok tt = ground (arith, e) in
    let same : insert graph.id graph graphs ≡ graphs' = ground (arith, e) in
    let at = λ (k : String). lookup-insert graph.id k graph graphs in
    rw (← same) (record {
      is_registry = record {
        holds = λ k g f. ground (arith, at k, f, h.holds k g, valid, eq_iff graph.id k);
      };
      found = λ shown. ground (arith, at graph.id, eq_iff graph.id graph.id);
      others = λ k n. ground (arith, at k, n);
      was_free = λ o. ground (arith, e, o);
    })

-- After `unregister` a `get` of the id raises, a `get` of another id that gave a graph gives the same
-- graph, and the registry stays sound.
pub unregister-get :
    (shown : List String → String) (workflow_id : String) (graphs : Graphs)
    → IsRegistry graphs
    → IsRegistry (unregister workflow_id graphs)
      × ((g : WorkflowGraph) → get shown workflow_id (unregister workflow_id graphs) ≢ ok g)
      × ((k : String) (g : WorkflowGraph)
          → k ≢ workflow_id
          → get shown k graphs ≡ ok g
          → get shown k (unregister workflow_id graphs) ≡ ok g)
unfolding unregister get
unregister-get shown workflow_id graphs h =
    let at = λ (k : String). lookup-erase workflow_id k graphs in
    (
      record { holds = λ k g f. ground (arith, at k, f, h.holds k g, eq_iff workflow_id k) },
      (λ g e. ground (arith, at workflow_id, eq_iff workflow_id workflow_id, e)),
      (λ k g n e. ground (arith, at k, eq_iff workflow_id k, n, e)),
    )
