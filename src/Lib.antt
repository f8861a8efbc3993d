-- ===== src/Lib.antt =====
-- A service that runs coding agents for the issues of a tracker. This library models its core: the
-- scheduler state, the policy that picks issues, the retries, the reconciliation with the tracker,
-- the orchestrator that is the only writer of the state, the workspaces on disk, the workflow file
-- with its configuration, the readers of agent payloads and approval requests, the tracker adapter
-- that keeps its records in memory, and what an SSH worker decides and sends to its host.
--
-- How the parts interact. The orchestrator takes one command after the other from its mailbox. A
-- tick reconciles the running issues (a plan made by Reconcile, carried out by the orchestrator),
-- then fetches the candidates, sorts them (Scheduling) and starts a worker for each that is
-- eligible while there are slots. A worker that ends, or that cannot start, leaves a retry with a
-- delay (Retry); its timer enqueues a command that looks at the issue again. Agent updates change
-- the session and the token totals of a running entry. A terminal issue has its workspace cleaned
-- up by the manager, which the orchestrator calls through an effect. `stop()` runs outside of the
-- mailbox. The configuration that all of this reads is built from the front matter of the workflow
-- file. The token counts and rate limits of an update are read from its payload by the functions
-- of Agent, and a worker is an attempt of the runner there. The issues come from a tracker, of
-- which Trackers models the adapter in memory. Remote models the pool of hosts for runs that do
-- not run locally, and the commands they send.
--
-- Files, and the code each models (paths from the root of the repository):
--   Prelude, Prelude/*      shared names, tests on numbers, list lemmas, integers
--   Text, Dict, Json        Python's strings, dicts and sets in insertion order, decoded JSON
--   Sorting                 the stable sort of a list by a strict order
--   Models, Models/Key      src/symphony/models.py: the records and enums by their names;
--                           `workspace_key` with the hash as a parameter
--   Models/Collisions       which identifiers share a workspace key
--   Config                  src/symphony/workflow/config.py: ServiceConfig and its tests of a state
--   Scheduling, Scheduling/*
--                           src/symphony/orchestrator/scheduling.py, function by function; its
--                           dispatch order, and which issues are eligible
--   Retry, Retry/*          src/symphony/orchestrator/retry.py: `backoff_delay_ms`, `next_attempt`,
--                           and RetryQueue as a record with its methods as functions
--   Reconcile, Reconcile/Plan
--                           src/symphony/orchestrator/reconcile.py: the planner
--   Orchestrator/State      the fields of Orchestrator in src/symphony/orchestrator/core.py, the
--                           World that one command meets, and the log of effects
--   Orchestrator/Stop       `stop()` up to its first await
--   Orchestrator/Claims     `schedule_retry`, `_release_claim`, `_dispatch_issue`,
--                           `terminate_running_issue`, `_cleanup_workspace`
--   Orchestrator/Tick       `_run_tick`, `_handle_tick`, and the drivers `reconcile_stalled_runs` and
--                           `reconcile_running_issues` of reconcile.py as `module_reconciler` binds them
--   Orchestrator/Handlers   worker exits, retry timers, phase updates, reloads
--   Orchestrator/Tokens, Orchestrator/Updates
--                           `_handle_agent_update`, with `token_delta` and `apply_token_totals` of
--                           src/symphony/agent/events.py
--   Orchestrator/Loop       the commands, `_handle`, `_mailbox_loop`, `__init__`, the startup cleanup
--   Orchestrator/Shape, Invariant, Preserved, Commands, History
--                           the claim invariant
--   Orchestrator/Slots, Limit
--                           the bound on running issues
--   Orchestrator/Stalls, Shutdown, Open
--                           stalled runs, `stop()` during a retry, what never closes the service
--   Orchestrator/Accounting, Rising, Exits, Postponed
--                           token totals, recent events, worker exits, retries that are put off
--   Workspace/Safety, Manager, Creation
--                           src/symphony/workspace/safety.py and manager.py: the containment check,
--                           and `path_for`, `cleanup` and `create_for_issue` on a disk
--   Workspace/Containment, Removal, Created
--                           what the check lets through, what `cleanup` removes and what
--                           `create_for_issue` leaves alone
--   Agent/Payload, Usage, RateLimits
--                           src/symphony/agent/events.py: the bounded walk of a payload, the
--                           selection and reading of token counts, the rate limits
--   Agent/Deltas, Independent
--                           what has no influence on the token counts
--   Agent/Approvals, Approved
--                           src/symphony/agent/approvals.py, and what the shipped policies approve
--   Agent/Runner, Turns, Attempts
--                           src/symphony/agent/runner.py: `run_attempt` and its turn loop, with what
--                           exceptions and cancellations do to it
--   Workflow/Loader, Split  src/symphony/workflow/loader.py: `parse_workflow_text`; its round trip
--   Workflow/Coerce, Expand, Build
--                           src/symphony/workflow/config.py: the coercions, `expand_value`,
--                           `build_config`, `validate_dispatch_config`; and the part of
--                           `ClaudeConfig.from_mapping` in src/symphony/agent/claude.py that it needs
--   Workflow/Valid, Fuel    the ranges of a configuration, the fuel of the substitution
--   Trackers/Normalize      the helpers of src/symphony/trackers/base.py
--   Trackers/Faults, Memory, Reads, Tools
--                           src/symphony/trackers/memory.py: FaultInjector, the records and their
--                           normalisation, the two reads, the agent tools
--   Trackers/Paging, Idle, Listing, Listed, Visible, Distinct
--                           what the two reads return
--   Trackers/Exhausted, Unique, Boundary
--                           faults for a number of calls, unique records, the scope of the tools
--   Remote/Quote, Paths, Parse, Hosts, Failover
--                           src/symphony/ssh/worker.py: the quoting of commands and its re-parse by
--                           `shlex.split`, remote paths, host entries, HostPool between two awaits,
--                           the failover boundary and RunProgress
--   Remote/Shell            how a POSIX shell reads a line of plain words, for what is said of commands
--   Remote/Reparse, Unexpanded, Cleanup, Brackets, Pool, Capacity, Runs, Latch
--                           what a quoted command is read as, what a cleanup removes, entries in
--                           brackets, the runs of a host, when a run may move
--   Samples, Samples/*      tests and the theorems at concrete inputs
--
-- How values are represented. A string is the list of its code points; `lower` and `casefold` are
-- exact on ASCII and leave other letters alone. An instant is a natural number of microseconds, a
-- naive one read as UTC; runtime seconds are kept exactly, in microseconds; delays are whole
-- milliseconds. Token counts are natural numbers, and Python's integers have no width, so nothing
-- wraps; `max(a - b, 0)` is subtraction that stops at 0. The clock is read once for each command.
-- Tasks and timer handles are fresh numbers, and `is` on them is equality of the numbers.
--
-- A disk is a function from paths, as tuples of parts, to what is there. What `Path.resolve` and
-- `os.path.normcase` yield, what the hooks do to the disk and which system calls raise are
-- arguments (the records Platform and Host). What a path resolves to does not change during one
-- operation, so the second containment check of `_remove_tree`, behind the hook, is redundant in
-- the model.
--
-- What a command meets outside is a World: the clock, the tracker's answers (`none` is an
-- exception), whether the runner's spawn raises, whether the preflight check passes, and for each
-- `await` whether `stop()` runs there. Everything that runs between two awaits is one step, as on
-- an event loop. What the code does outside of the state (spawns, cancellations, timers, cleanups,
-- notifications) is a log of effects, in order.
--
-- Decoded JSON and YAML is a data type of its own, whose objects are lists of fields with string
-- keys. A double is a mantissa times a power of two, an infinity or a NaN.
--
-- Fuel. `bit_length` runs on its argument, which is enough because every step halves it
-- (`bit_length_above` in Retry/Backoff). The walk of a payload runs on the number of nodes that
-- the code may still yield, its own bound of 512; the copies of a payload and the names of a
-- request on the levels of their own depth bounds. The substitution of variables and the slices of
-- a list have a unit for each character or element, which Workflow/Fuel and Trackers/Paging show
-- to be enough. The turn loop of an attempt has a unit for each turn and one more (Agent/Turns).
-- All other loops are recursions on a list.
--
-- A run of the host pool gives its host back at most once: the pool's events name the assignments
-- that are held. What a double release does is a finding, not a theorem.
--
-- Not modelled: `_Invoke` (it runs code of the host), the futures and observers, logging, and the
-- fallback of `_reconcile_running_issues` for hosts that inject no reconciler. The YAML parser,
-- `float` and `datetime.fromisoformat` on strings, the environment and the path operations of the
-- host are arguments. Of the memory adapter, the validation of its settings is left out. The HTTP
-- trackers, the agent backends, the transports of SSH, and the hooks, HTTP, RLM and command-line
-- parts talk to processes and networks and are left out.
mod Prelude
pub mod Text
pub mod Dict
pub mod Json
pub mod Models
pub mod Config
pub mod Sorting
pub mod Scheduling
pub mod Retry
pub mod Reconcile
pub mod Orchestrator
pub mod Workspace
pub mod Agent
pub mod Workflow
mod Samples
pub mod Trackers
pub mod Remote
