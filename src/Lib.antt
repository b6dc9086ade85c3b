-- ===== src/Lib.antt =====
-- The development of the enterprise AI agent platform: its agent scheduler, its workflow engine, the loop
-- of an agent and its plans, the multi-agent coordinator, the memories, the caches, the allocation
-- of GPUs and the splitting of documents.
--
-- The scheduler (backend/app/scheduler) takes agent tasks from clients, keeps a record of each, and
-- hands them through a queue to a pool of workers, which run them under a timeout, retry failures and
-- set an event at the end. The workflow engine (backend/app/workflow) runs a graph of nodes (agents,
-- tools, human approvals and branches) in the order of its edges; an agent node calls the runtime, which
-- submits to the scheduler. The two meet only in that call, which is a parameter of the engine here.
--
-- An agent (backend/app/agents) asks a language model in a loop, runs the tools that it calls, and may
-- follow a plan step by step. The coordinator (backend/app/multi_agent) picks agents for the parts of a
-- request and speaks with them over a message bus. The caches (backend/app/cache), the GPU allocator
-- (backend/app/gpu), the memories that agents share (backend/app/memory) and the splitter
-- (backend/app/knowledge) are libraries of their own.
--
-- Prelude and the modules below it: Boolean tests, lists, integers and dictionaries over the native
-- numbers and texts; a dictionary is an association list in the order of insertion.
--
-- Scheduler, backend/app/scheduler:
--   Queue                  queue.py. Queue.Interface is TaskQueue with the laws the scheduler relies
--                          on; Fifo and Priority implement it (push, pop, remove, qsize; heappop's order
--                          is the sorted list), Policy is create_task_queue. Priority.Laws and
--                          Priority.Order prove the laws and the order.
--   Core                   scheduler.py. Each critical section is a function on the record Scheduler:
--                          submit, cancel, get_record, finalize and handle_failure under their own
--                          names; _on_worker_task is begin, prepare, check_cancelled and conclude, the
--                          four sections around the run. Core.Client is submit_and_wait's loop and
--                          dashboard_snapshot. Core.Records holds the data and TimeoutExecutor.run of
--                          worker.py. Core.Standing is the invariant of one task, with its preservation
--                          in Standing.Keeps; Core.Follows is what never changes back.
--   Workers                worker.py and dispatcher.py as a step relation: clients and workers take turns,
--                          one section or one queue call at a time. Invariant, Final and Waiting prove what
--                          holds in every state reached.
--   Tests                  runs of one task.
--
-- Workflow, backend/app/workflow:
--   Node, Context          node.py, edge.py, base.py.
--   Graph                  graph.py: add_node, add_edge, validate, topological_order, successors.
--                          The loops of _assert_acyclic and topological_order are one, take_ready.
--                          Graph.Kahn, Taking and Order prove what it takes and in which order,
--                          Topological is about topological_order, Build about the two methods
--                          that add.
--   Value                  the values of `Any`, and _get_path, _resolve_value, _render_template.
--   Human                  human_node.py; Human.Decision proves what a payload comes to.
--   Execute                _execute_node_with_recovery and the four kinds of nodes of executor.py.
--                          Execute.Retries is about its runs, Refused about its exceptions.
--   Engine                 _execute_loop of executor.py with its helpers, over the record ActiveRun.
--                          Engine.Resolve, Skips, Visits and Rounds prove a round, Ended and
--                          Progress the loop.
--   Executor               run, resume, rerun_step, get_run and get_run_graph over the dictionary
--                          _runs; Executor.Calls, Downstream and Rerun are about what they return,
--                          History about any sequence of calls.
--   Registry               registry.py.
--   Tests                  a graph with a branch, and its runs.
--
-- Agents, backend/app/agents/executor:
--   Types                  messages, tool calls, results, plans and contexts of llm, tools, memory, agents.
--   Loop                   agent_executor.py with its message and observation builders and error handler:
--                          iterate is the loop of run. Loop.Rounds is about the conversation it leaves.
--   Build                  plan/strategy.py.
--   Step                   plan/step_executor.py's execute, plan/error_handler.py, and the retry loop over
--                          one step; Step.Settles shows how a step is left.
--   Plan                   plan/workflow.py, synthesize, and plan/workflow_executor.py; Plan.Steps and
--                          Plan.Built are about whole runs.
--
-- MultiAgent, backend/app/multi_agent:
--   Bus, Memory            message_bus.py and shared_memory.py.
--   Registry, Router       registry.py, role_agent.py and router.py; Router.Best is about the choice.
--   Task, Coordinator      task.py and coordinator.py: execute_subtask, decompose, synthesize, run.
--                          Coordinator.Tasks and Requests are about the bus, Status about the state.
--
-- Cache, backend/app/cache:
--   Store                  the interface CacheStore with the laws that the layers rely on.
--   Memory                 memory.py; Memory.Bound, Expiry, and Only, which fills the interface.
--   Layers                 layers.py, keys.py, stats.py; Layers.Counts is about the counters.
--   Embedding              cached_embedding.py; Embedding.Refines compares it with what it wraps.
--
-- Gpu, backend/app/gpu:
--   Pick                   the ranking of devices in allocator.py; Pick.Best is about it.
--   Allocator              the rest of allocator.py; Allocator.Records, Grants, Totals and Release.
--   Scheduler              scheduler.py; Scheduler.Waits is about submit_and_wait and the results.
--
-- Memory, backend/app/memory:
--   Stores                 inmemory.py, short_term.py, long_term.py, shared_memory.py.
--   Manager                memory_manager.py; Manager.Writes is about the writes to projects.
--
-- Knowledge, backend/app/knowledge:
--   Splitter               splitter.py; Splitter.Pieces is about the loop, Chunks about whole texts.
--
-- Each of these has a module Tests with runs on concrete inputs.
--
-- Parameters: the agent runtime, the tool executor and the callable of a task answer arbitrarily (they
-- raise, or give a result, and change a state of their own); Python's lower, strip, repr and the
-- rendering of an Enum are arbitrary functions; the clock and uuid4 are arguments, and a new task id is
-- new. The language model, the tools, the planner, the prompt builder, the devices that the GPU monitor
-- scans, SHA-256, JSON, and Python's str, split and splitlines are parameters too. The helper of embodied
-- agents gives observations or raises; Python's dict of a value that is no dictionary gives the pairs
-- that it lists or raises. `config` and
-- `agent_kwargs` are handed on to the runtime unread and are left out.
--
-- Bounds and fuel: numbers are unbounded, as in Python; times are clock ticks and timeouts whole numbers,
-- and so are the GPU's memory, load and temperature; a score is twenty times that of the source.
-- take_ready has fuel one more than the number of nodes, execute_loop the same, both proved enough.
-- `collect` of rerun_step, which visits each node at most once, has two more than the number of nodes,
-- proved enough too. The retry loop over a step has max_retries + 1, the splitter's loop the length of the
-- text, both proved enough. submit_and_wait has one turn more than the deadline's ticks, proved enough
-- where the clock advances in each turn.
--
-- Not modelled: threads and their start and stop, locks (a critical section is one step), condition
-- variables (pop on an empty queue returns None, as after its timeout), the default scheduler of the
-- process, logging, and the to_dict renderings, which only format. Floats and other objects among the
-- values of `Any` are left out. Tracers, which only record, are left out. The other parts of the platform
-- (the planner's prompt, retrieval, model routing and clients, devices, dashboards and the applications)
-- are outside of this development. Nothing else uses the GPU scheduler during a wait, and a memory record
-- is a value that nobody changes after handing it over.
pub mod Prelude
pub mod Scheduler
pub mod Workflow
pub mod Agents
pub mod MultiAgent
pub mod Cache
pub mod Gpu
pub mod Memory
pub mod Knowledge
