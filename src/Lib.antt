-- ===== src/Lib.antt =====
-- bonsai-agent: a local agent that runs a small language model in a loop of tool calls. This library
-- models that loop from its first message to its last event: what is asked of the model, what its
-- answer is read as, whether a tool may run, what is recorded of its result, what is done after a
-- failure, and what is kept of a long conversation. Paths are those of the repository.
--
-- How the parts interact. In every iteration the loop (src/agent/agent_loop/core.rs) caps the working
-- memory, lets the middlewares (src/agent/middleware.rs) compact or stop, and runs a step
-- (step.rs): the model is asked, its output is parsed (src/agent/parse.rs), a final answer is judged
-- by the panel (src/agent/magi/panel.rs), and tool calls are tested one by one and executed
-- (execute_validated_calls). Each executed call passes the gate of permission and autonomy; its
-- result is redacted and applied to the session, the circuit breaker, the trial summary, the guard
-- of stuck files, the store and the cache. The outcome of the step (outcome.rs) updates the count of
-- failures, whose escalation answers with a new plan or a stop, runs the middlewares again (compaction
-- and token budget), and asks the advisor when the loop stalls. A delegation
-- (src/agent/subagent.rs) runs the loop once for every goal, with narrower rights and a task in the
-- table of src/agent/task.rs; a call is validated (src/agent/validate.rs) with the guard of the denied
-- paths (src/safety/path_guard.rs), and a fetch with the filter of src/safety/network.rs.
--
-- Files.
--   Prelude        shared names, Boolean tests, lists, texts, association lists, sliding windows.
--   Conversation   src/domain/conversation.rs: Role, Message, Session.
--   Recovery       src/agent/error_recovery.rs. Failure: FailureMode, RecoveryHint, decide_recovery,
--                  classify_environment_failure. ContinueSite, Trials (TrialSummary and
--                  StructuredFeedback), Breaker (CircuitBreaker), StuckGuard (FileStuckGuard),
--                  LoopDetector and EditCycle (MultiFileEditCycleDetector) model one type each; a
--                  method of `&mut self` is a function from the state to the new state.
--   Compaction     src/agent/compaction.rs. Config: configuration, budget and token estimate.
--                  Extract: what is taken from the messages. Axes: the kinds of memory. Pruning:
--                  levels 0 and 1. Levels: levels 2 and 3 and compact_if_needed.
--   ToolExec       src/agent/tool_exec.rs. Permission: src/tools/permission.rs and
--                  src/safety/autonomy.rs. Gate: execute_single_call_with_policy and the readings of
--                  a batch. Cache: ToolResultCache of src/tools/mod.rs. Apply: redaction
--                  (src/safety/secrets.rs), truncation, apply_tool_result; Learning is about what
--                  a history of results leaves. Batch: execute_validated_calls.
--   LoopState      src/agent/agent_loop/state.rs: TokenBudgetTracker and StallDetector.
--   WorkingMemory  src/agent/working_memory.rs: cap_session_messages.
--   Events         src/domain/event.rs: classify_task_type.
--   Parsing        src/agent/parse.rs: parse_assistant_output, sanitize_tool_call_json. Tags and Blocks
--                  are about the tags of an output, Fuel about the end of the loop.
--   Panel          src/agent/magi/panel.rs: MagiPanel.
--   Supervisor     src/runtime/process_supervisor.rs: ProcessSupervisor, with the requests and the
--                  watchdog of src/main.rs as interleaved steps. Counting and Striking are about
--                  their interleavings.
--   Spill          src/agent/tool_spill.rs: SpillStore, its writes and evictions.
--   Task           src/agent/task.rs: TaskManager over its table of src/db/schema.rs.
--   Subagent       src/agent/subagent.rs: roles, configuration and the executions of a delegation.
--                  Rights is about what a subagent may use, Records and Delegated about what the
--                  sequential execution leaves in the table of tasks.
--   Network        src/safety/network.rs: NetworkFilter and validate_fetch_url_with_resolver. Blocks is
--                  about the restricted addresses; Fetch is WebFetchTool of src/tools/web.rs.
--   PathGuard      src/safety/path_guard.rs: PathGuard and normalize_path. Command is
--                  find_denied_paths_in_command, Ansic is unescape_ansic, Inside is about what lies in
--                  a denied directory.
--   Validate       src/agent/validate.rs: validate_tool_call. Suggest is suggest_similar_tool with
--                  edit_distance, Distance is about the latter, Strings about the texts in the
--                  arguments of a call.
--   InferenceCache src/runtime/cache.rs: InferenceCache and CachedBackend. Answers and Repeated are
--                  about what is answered, Size about how many entries there are.
--   AgentLoop      Middleware: the chain of src/agent/middleware.rs. Advisor: AdvisorConfig of
--                  src/runtime/model_router.rs and resolve_advisor_prompt. Of src/agent/agent_loop:
--                  State (state.rs), Inject (advisor_inject.rs, detect_task_complexity), Critic
--                  (inject_critic_review), Outcome (outcome.rs: handle_outcome), Core (core.rs:
--                  run_agent_loop_with_session), Answer (support.rs: build_answer), Dispatch and Step
--                  (step.rs: execute_step). Core takes the step as a parameter; Step.Answers puts
--                  execute_step in its place, and Dispatch.Guarded the validation of Validate in that
--                  of the parameter of Dispatch. Spending, under Outcome and Core, is about the
--                  requests to the advisor and the critic. Instances holds concrete parameters for
--                  the tests.
--   A child module named Examples or Counted holds tests and instances of the theorems beside it.
--
-- Conventions. A usize is a natural number: no modelled sum comes near 2 ^ 64, but for
-- the bytes of Spill, whose sums saturate or wrap as in the source. A subtraction that
-- the source guards or saturates is the truncated one. A hash map is an association list with one
-- entry for a key, and where its order is observable the order is a parameter. A time is a number
-- of nanoseconds, in Supervisor of milliseconds. Scores and confidences that the source holds as
-- floats with few values are whole numbers (tenths, hundredths); products of floats are parameters.
--
-- Fuel. The two searches for tags in Compaction.Extract and the loop of the parser run on fuel: a
-- round consumes an opening tag, so a text has fewer rounds than characters, and the fuel is one more
-- than its characters (Compaction.Extract.Fuel, Parsing.Fuel). All other loops are structural; the
-- loop of the agent runs over the iterations that are left.
--
-- Parameters. Code that is not in the repository: regular expressions, serde_json, the hasher of
-- the standard library, Unicode lower case, the Debug text of a failure mode, the clock, the file
-- system (which files a reading of the directory of Spill lists, and which removals succeed), the
-- requests to a model or an advisor, and the products and comparisons of floats. A tool is a
-- function on an arbitrary world. Parameters too are the engine of SQL and the new names of Task,
-- the parsers of URLs and addresses and the resolver of Network, the links of the file system of
-- PathGuard, and the hasher and the backend of InferenceCache. Of the repository itself the
-- validation of a call (which Validate models) and the judges of the panel are parameters of
-- AgentLoop, functions of the call and of what is judged, and so are the choice of the tools that a
-- model is shown, the rate of verifications that the store counts, and the memories that are
-- injected before the loop. Subagent takes the loop as a parameter, and what the threads of a
-- parallel delegation leave.
--
-- Not modelled. The runtime of the language model but for its cache, the SQL store but for its tasks,
-- the knowledge graph, the tools themselves, the command line and the experiments: they are I/O or
-- statistics around the parts above. A write to the store is recorded with what is written, and its
-- errors, which the source ignores, are left out, as are log lines. The readings of a batch run in
-- parallel in the source and in the order of the batch here. Time stamps of sessions are left out.
pub mod Prelude
pub mod Conversation
pub mod Recovery
pub mod Compaction
pub mod ToolExec
pub mod LoopState
pub mod WorkingMemory
pub mod Events
pub mod Parsing
pub mod Panel
pub mod Supervisor
pub mod Spill
pub mod Task
pub mod Subagent
pub mod Network
pub mod PathGuard
pub mod Validate
pub mod InferenceCache
pub mod AgentLoop
