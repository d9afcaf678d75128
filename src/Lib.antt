-- ===== src/Lib.antt =====
-- agents-universe: the core logic of the agent platform.
--
-- The program runs agents in conversations. A turn sends the history to a model, which
-- `compressor.py` keeps within the model's window; `model_routing.py` picks the model; schedules start
-- turns by the cron expressions of `scheduling/cron.py`. Before each turn the history is repaired. In a
-- turn a model may plan tasks, which the scheduler of `agent.py` runs, hand work to the agents of the
-- roster of `delegation.py`, and ask `knowledge/graph/queries.py` about the graph of a repository. A
-- conversation has one turn at a time, which claims it from the connection manager, and the manager
-- carries a stop to that turn. The scheduler claims due schedules in ticks and launches their runs in
-- the background. What a tool fetches passes the guard of `tools/_ssrf.py` first.
--
-- Files and sources (paths from the repository's root; CORE is packages/agent-core/src/agent_core,
-- API is packages/api/src/api):
-- Routing: CORE/model_routing.py, `resolve_tier_config` and `cheapest_tier` under their names.
-- Cron: CORE/scheduling/cron.py. Cron.Field is `_parse` with `_parse_field` and `_int_field`,
--   Cron.Values its sets of numbers, Cron.Date the calendar of Python's `datetime`, Cron.Next
--   `next_run_at`, with the path for days without a change of offset (`first_time`) and the one for
--   days with such a change (`best_time`).
-- Compressor: CORE/compressor.py and `Message` of CORE/providers/base.py. Estimate holds the token
--   and byte estimates and `request_byte_breakdown`, Truncate `truncate_oversized_tool_messages` and
--   `force_compress_history`, Images `demote_image_messages`, Early `split_early_recent` and
--   `format_early_history`, History `compress_history`.
-- Session: CORE/session.py. Session is the state of a `ConversationSession` with `add_tokens` and
--   `abort`, Session.Ledger the prompt ledger, Session.Stream `emit`, `events` and `close`,
--   Session.Inputs the injected messages, and Session.Actions a session as the sequence of calls that
--   reach it. A call of `emit` that finds the queue full waits among the `putters`, until it is woken
--   or has waited too long.
-- Runs: API/services/conversation_runs.py. Runs has the rows of `conversation_runs` and the writes
--   `create_run`, `update_run_snapshot`, `finish_run` and `interrupt_stale_runs`; Runs.Writes any
--   sequence of them and of the recovery's clearings; Runs.Recovery `materialize_interrupted_snapshots`, one transaction for each
--   conversation.
-- Tasks: CORE/agent.py, the plans of `plan_task`. Tasks is `_normalize_task_plan` and
--   `_build_dependency_graph`, Tasks.Kahn the order behind its cycle test, Tasks.Fallback the chain
--   that takes the place of a cyclic graph, Tasks.Progress `_compute_task_progress`, and
--   Tasks.Schedule the scheduler of `_run_task_mode`: a state of sets of task ids, and a step for each
--   stretch between two waits, with the number of calls of `_dispatch_ready` that coroutines have still
--   to make. A step of the model may come at more points than in the program, where each coroutine makes
--   its own in order; what holds of all runs of the model holds of the program's.
-- ToolCalls: CORE/agent.py, `_drop_orphan_tool_messages`, which repairs the history before a turn.
-- Delegation: CORE/delegation.py, `list_delegation_candidates`, with the test of slugs of
--   CORE/definition_check.py; directories are given as the lists of their definition files.
-- RepoGraph: CORE/knowledge/graph/model.py, the graph of a repository with its codec and ids.
-- Queries: CORE/knowledge/graph/queries.py, `resolve_node` and `impact_set`; Queries.Dependents is the
--   relation between nodes that `impact_set` computes, with its loop. Queries.Neighbors is
--   `neighbors`.
-- Connections: API/websocket/manager.py, `ConnectionManager` with an operation for each method.
--   Connections.Actions is a manager as the sequence of calls that reach it.
-- Schedules: API/services/scheduler.py, the rows of `scheduled_tasks`, the loop of `startup_sweep` and
--   the two halves of `_tick`, its query and its claims. Schedules.Ticks interleaves them: a tick reads,
--   and commits later.
-- ScheduledRuns: API/services/scheduled_runs.py, the rows of `scheduled_task_runs` and their writes, in
--   `spawn_run`, `execute_run`, `_finalize` and `_finalize_failure`, with the first write of
--   `startup_sweep`. ScheduledRuns.Launches is a process as a step relation: a launch holds the lock of
--   its schedule, and each step is what it or a background task does between two waits.
--   ScheduledRuns.Replies is `_NullTransport`, `_last_reply` and the end of `_run_agent_target`.
-- Ssrf: CORE/tools/_ssrf.py, `validate_url` and the functions that it calls, `validate_resolved_ip` and
--   `resolve_and_validate`.
-- Prelude: numbers, lists, dictionaries in insertion order, and text as a list of code points.
--
-- Choices. Text that the program walks is a list of code points; keys and tags are native strings.
-- Objects that the program mutates in place are records that each call returns anew. Exceptions are
-- values: `CronError` has a constructor for each message, without the text that the message quotes.
-- The limit of 4300 digits of `int()` is the interpreter's default.
--
-- Bounds and fuel. `impact_set` has one round more than the graph has edges: a node enters the
-- queue only when it is first seen, by an edge that leaves it. The binary search of Truncate has as
-- much fuel as the text has characters, and one more: each round shortens the interval.
-- `next_run_at` has the 1465 rounds of its source. A range has as many rounds as numbers between
-- its ends. The cycle test has one round more than there are tasks, and each round visits another
-- task. The products with 1.3 and 0.6 in the token estimate are integer quotients, equal to the
-- floating-point ones for all counts up to three million, by computation; the product with 1.15
-- rounds, and is the parameter `escaped`. `_is_ip_blocked` looks into two addresses at most, since an
-- IPv4 address maps no other.
--
-- Parameters. The tz database is a function from names to zones, and a zone is a record of two
-- functions, its offset at a reading and its reading of an instant; the laws that a theorem needs
-- of them are its hypotheses. That readings follow instants on days with no transition fails in a
-- few zones before 2011, whose clocks fell back across midnight. The provider that summarizes is a
-- function from messages to an answer. Of the database, the order of a query, the fresh ids and the
-- outcome of each commit are parameters of the recovery, and so are the JSON that it reads and
-- writes. The order of the due rows and which projects are active are parameters of a tick; the id
-- that a run gets is any fresh one. Which sockets take a frame is a function of the socket; the
-- query for the message of a turn and `json.loads` of its references are functions too. Of the
-- guard, the objects of `ipaddress`, the IDNA codec, the text of an IPv4 address, `str.lower` and
-- the answers of the resolver are parameters, and a URL is what `urlparse` makes of it.
--
-- Not modelled: files, databases, network and the tools that wrap them; the execution of a scheduled
-- script, spec or turn, whose outcome is the environment's choice, and the delivery of its result;
-- logging; the web client; the wording of `describe_cron`; `shortest_path` and `search` of the graph
-- queries; the choice of a language in the texts of a definition.
mod Prelude
pub mod Routing
pub mod Cron
pub mod Compressor
pub mod Session
pub mod Runs
pub mod Delegation
pub mod RepoGraph
pub mod Queries
pub mod Tasks
pub mod ToolCalls
pub mod Connections
pub mod Schedules
pub mod ScheduledRuns
pub mod Ssrf
