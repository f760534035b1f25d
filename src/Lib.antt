-- ===== src/Lib.antt =====
-- Blender AI Sidebar: an agent in a Blender sidebar that lets a language model call tools and
-- propose plans of several steps, which are validated, approved and executed.
--
-- The parts and their files, with paths from the repository's root:
--
--   Core/Types       core/types.py: RiskLevel, ToolError, ToolResult with ok and fail; RISK_ORDER and
--                    max_risk_level of agent/plan_models.py.
--   Core/Json, Core/Text, Core/TextParts   the values of json.loads, dict access, == of values, and
--                    the operations of str, which the program uses throughout.
--   Core/ChangeSet   core/change_set.py: the records of a change set and its verification.
--   Core/EventQueue  core/event_queue.py: the queue from the worker to the main thread, drain_batch.
--   Tools/Registry   tools/base.py and tools/registry.py: tools, their schemas, the registry.
--   Agent/Models     agent/models.py: ToolCall, ChatMessage and the constraints of its constructor.
--   Agent/Conversation   Conversation of agent/models.py; Conversation/Grammar has the grammar that
--                    validate_sequence decides.
--   Agent/Policy     agent/policy.py: evaluate and create_pending_approval.
--   Agent/Dispatcher agent/dispatcher.py: dispatch.
--   Agent/History    agent/history.py: the bounded list of items that the sidebar shows;
--                    History/Recent has what it holds after any calls.
--   Agent/ToolCallAccumulator   agent/tool_call_accumulator.py: feed_delta and finalize;
--                    ToolCallAccumulator/Fragments relates the calls to what was fed.
--   Agent/SseParser  agent/sse_parser.py: the parser of server-sent events; SseParser/Lines and
--                    SseParser/Extract carry the proof of SseParser/Chunks on the cut into chunks.
--   Agent/Memory     agent/memory.py: the partition of a conversation into turns and the pruning of the
--                    older ones, in Memory; the short forms of tool results in Memory/Pruning;
--                    RollingMemory in Memory/Rolling, Targets, Mutations, ToolResults and
--                    Summary; compact_conversation in Memory/Compaction, and to_dict and
--                    from_dict in Memory/Persisted.
--   Agent/ContextBuilder  agent/context_builder.py: the size guard of a request's context.
--   Agent/Verifier   agent/verifier.py: the comparisons in Verifier, the rules of the operations in
--                    Verifier/Rules, Creation and Editing, verify in Verifier/Operations, and
--                    build_change_set_from_result in Verifier/Changes and ChangeSets.
--   Agent/StateMachine   agent/state_machine.py: the states of a turn;
--                    StateMachine/Walks has the walks through them.
--   Agent/PromptQueue    agent/prompt_queue.py: the prompts that wait behind a turn.
--   Plan/Models      agent/plan_models.py: PlanStep, Plan, their __post_init__ and to_dict, outcomes.
--   Plan/Arguments   validate_tool_arguments of agent/plan_validator.py.
--   Plan/Graph       the in-degrees, the adjacency and Kahn's loop of PlanValidator.validate;
--                    Graph/Edges, Graph/Relax, Graph/Sorted, Graph/Loop and Graph/Order carry the
--                    invariant of the loop.
--   Plan/Validator   PlanValidator.validate: the parsing of the steps here, the stages behind it in
--                    Validator/Checks. Parsing, Collect, Sound, Accept, Verdict and Complete hold the
--                    proofs.
--   Plan/Executor    PlanExecutor: _execute_step here, the loop and execute_plan in Executor/Steps.
--                    Executor/Refine compares the loop with the description `report`,
--                    Executor/FailFast gives the shape of a report, and
--                    Executor/Results has the results on execute_plan, Executor/Gate
--                    its approval gate, Executor/Dispatch its calls against the dispatcher.
--   Plan/Review      agent/plan_review.py: the review that a user decides on as a whole.
--   Agent/Runtime    agent/runtime.py: the state of AgentRuntime and its collaborators. Runtime/Action
--                    has the methods that change the state and may raise, Runtime/Execute
--                    _execute_and_verify, Runtime/Turns submit_prompt, pump_prompt_queue,
--                    cancel_current_turn and the resets, Runtime/Replies what the handlers share,
--                    Runtime/Approvals approve and reject, Runtime/Plans request_plan_review,
--                    approve_plan and reject_plan, and Runtime/Events process_event.
--                    Runtime/Quiet, Calls, Executed, LowRisk, Proposals, Handlers and Closed have what
--                    the methods keep; Runtime/Answers, Verdicts, Gate, Rounds, Untouched and Cancelled
--                    have the results.
--   Tests            concrete plans, calls and messages.
--
-- The executor hands every input to the validator and runs only the plan that comes back; both look
-- tools up in the registry, and the executor asks the policy for each step where it has one. The
-- runtime owns the conversation, the queue of prompts and the pending approval or review. It hands
-- tasks to the worker and gets its events, asks the policy before each tool call of a response,
-- hands an approved plan to the executor, which calls back into _execute_and_verify, and runs tools
-- by the dispatcher. The tools, the adapter and the scene are one parameter, the world, that only
-- calls change.
--
-- Errors are values: None results and exceptions are `none` of an Option or constructors of an
-- error type, one for each message text. A set of ids is a list that is only asked for membership.
-- What is called but not part of these files (the functions that execute a call, the verifiers, the
-- approval hook, uuid4, json.loads, the clock) is a parameter; the new plan id of uuid4 is only
-- assumed not to be blank.
--
-- Kahn's loop runs on fuel: one round for each step and one to stop. Graph/Loop proves that it is
-- enough. Everything else is structural recursion.
--
-- A method of the runtime takes its state to a result or an exception and the state that it leaves
-- behind; a tool that never returns is not covered.
--
-- Not modelled: display texts, times, logging, network, threads and the bpy side; of
-- agent/runtime.py run, execute_plan, verify_visual, snapshot and the export and restore of the
-- session memory; the regular expressions of sanitize_persisted_text, which are parameters; in
-- agent/verifier.py integers beyond the range of a float; the runtime has the compaction as a
-- parameter.
pub mod Prelude
pub mod Core
pub mod Tools
pub mod Agent
pub mod Plan
pub mod Tests
