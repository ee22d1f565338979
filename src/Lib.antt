-- ===== src/Lib.antt =====
-- Verification library of gopheragent, a Go library for LLM agents that call tools.
--
-- An agent loop sends a conversation to a model, which answers with text or with tool calls. A turn
-- with tool calls is cut to the budget, recorded as an assistant message, ordered into waves, run
-- behind gates (plan mode, permission policy, human approval), watched for repetition, and recorded as
-- tool messages. Model APIs refuse a conversation in which a call has no reply, so the loop keeps the
-- transcript balanced at every exit, and repairs a stored one before it is sent. This library models
-- that path:
--
--   History     pkg/history/types.go: messages and tool calls.
--   Scheduler   pkg/agent/scheduler.go: parseRefs (Refs) and scheduleToolCalls. Counts, Layers and
--               Nodes carry the invariant of the layered loop.
--   Permission  pkg/agent/permissions.go: globMatch (Glob), the rule parser, the rule set and Check
--               (Rules). Glob/Language says when a pattern matches, without a loop.
--   AntiLoop    pkg/agent/anti_loop.go: the ring, AddCall and Detect. Ring reads the ring as the list
--               of recent calls.
--   Execution   loop_state.go (State), the configuration and the state of the loop (Host),
--               executeToolCall of loop_execute.go with hitl_gate.go, plan_mode_gate.go and
--               applyDegradation (Call, Dispatch), executeToolWaves with splitGatedDuplicates,
--               copyDuplicateResults and substituteWaveArgs (Waves), and applyToolCallBudget and recordToolTurn of
--               loop_iteration_helpers.go and loop_iteration.go (Turn), and needsApproval,
--               pendingToolTurn and seededWaveState of resume.go (Resume), with PendingApprovals
--               and the checks of Resume (Approvals).
--   Request     pkg/agent/pruning.go: hasDanglingToolCalls and patchDanglingToolCalls (Dangling);
--               pkg/agent/history_window.go: the bounded view of a history (Window);
--               pkg/agent/compaction.go: the view of a history with summaries of its old turns, and
--               the compaction that adds one (View); the passes of pruning.go that shorten contents
--               (Prune); deriveRequestMessages of loop_iteration_helpers.go, which composes these
--               under a token budget (Derive); pkg/agent/request_invariant.go and the tail injection
--               of dynamic_context.go (Invariant).
--   Session     pkg/history/fork.go: the safe cut of a history (Boundary);
--               pkg/history/inmem_session_manager.go: the maps of the in-memory store and its
--               operations (Manager), read as a function from session keys to slots (Slots), with the
--               listing of query_types.go (Query); pkg/agent/regenerate.go: what Regenerate and
--               Continue do to the stored history, on any store, before the loop runs (Regenerate).
--   Memory      pkg/memory/inmem.go and memory.go: the notes kept across sessions, under a cap.
--   Base        strings, lists, tables, results and tests that the others share.
--
-- Go functions keep their names, in lower case. A string is the list of its bytes, an int that only
-- counts is a natural number, FNV-1a wraps at 64 bits, and the remainder of the ring is written out
-- as in the source. A map is a list of entries or of keys; where Go visits a map in no fixed order,
-- the code sorts what it collects, and the model keeps the order of the input. A pair of a value and
-- an error is a result. A method that changes its receiver returns the new state.
--
-- Four loops run on fuel. globMatch has as many rounds as rounds in Permission/Glob gives.
-- scheduleToolCalls has one for each call, since a round takes at least one call out or ends the loop
-- on a cycle. The safe cut has one for each message before it, since a round lowers the cut or ends
-- the loop, and the trimming of a replaced set of notes one for each note, since a round drops one.
--
-- A session's log, its window, its view and its derived request are lists of messages. Balanced in
-- Request/Window/Rooted says of such a list that calls and replies match both ways. Times are
-- numbers that the caller passes, as what time.Now returned. A limit of 0 stands for every limit that
-- is not positive where the code treats these alike. Sorting by the standard library, random session
-- keys, the call of a model for a summary and the float product of the warning threshold are
-- parameters.
--
-- A tool call is one step on the state of the loop, and the goroutines of a turn are steps in any
-- order: the mutexes and the interleaving inside a step are not modelled. The callbacks of the host
-- (tools, policy, approvals, hook, cache) are functions that Execution/Host collects. So are the texts
-- of refusals and warnings, the random correlation IDs, and JSON canonicalisation by encoding/json.
-- What a tool reports while it runs, spans and log lines are not modelled.
--
-- Not modelled: the substitution of references into JSON arguments (substituteRefs), the
-- iteration around a turn, the system injections of a request, retries, costs, resumeLogicLoop,
-- the file session store, the tool registry, skills, the trigram cache and the audit log.
-- Provider adapters, SQL stores, telemetry and the examples are input and output and are left out.
pub mod Base
pub mod Session
pub mod Memory
pub mod History
pub mod Permission
pub mod AntiLoop
pub mod Request
pub mod Scheduler
pub mod Execution
