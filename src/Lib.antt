-- ===== src/Lib.antt =====
-- The assistant runtime: a server that runs one assistant for host applications. This library models the
-- parts whose state other parts rely on, and proves what they promise.
--
-- Parts and files.
--   Prelude            shared helpers: tests, results and methods with state, association lists, texts.
--   Base               src/assistant_runtime/base. Lifecycle is LifecycleManager (lifecycle.py), Cursors
--                      is ChangeCursor (cursors.py). Startup and Pages are theorems.
--   Access             src/assistant_runtime/principal.py and app/access. Principals is principal.py,
--                      Service is AccessService (interface.py), with `str.lower` and the host's callback
--                      as parameters. Named, Tokens and Ownership are theorems.
--   Actions            src/assistant_runtime/services/actions. Types are the records and errors
--                      (models.py, exceptions.py), Store is InMemoryActionStore (_store.py), Changes are
--                      the arguments of ActionService and what they change, and Service is its methods
--                      (interface.py). Steps are its calls; History, Consistent, Confirmed and Conflicts
--                      are theorems.
--   EventLog           src/assistant_runtime/app/event_log. Types are the records (models.py,
--                      exceptions.py), Store is InMemoryEventStore (_store.py), Service is
--                      EventLogService (interface.py), and Requests are its requests when they run at
--                      once: the transactions of `record` and of `_deliver`, and the call of ingress
--                      between them, as single steps. Writes, Once, Repeats and Refines are
--                      theorems.
--   Tasks              src/assistant_runtime/app/tasks. Types are the records (models.py,
--                      exceptions.py), Store is InMemoryTaskStore (_store.py), Runner is
--                      BackgroundTurnRunner (_runner.py), whose `execute` is cut where it waits:
--                      start_turn, end_unstarted, end_turn. Service and Agents are TaskService
--                      (interface.py) on tasks and on persistent agents. Submits, Ends, Published, OpenJobs,
--                      Stops, Cancels, Exclusive and AgentRuns are theorems.
--   Artifacts          src/assistant_runtime/services/artifacts and artifacts.py. Types are the records
--                      and errors (models.py, exceptions.py), Profiles the profiles and what a policy
--                      permits (artifacts.py, _permitted), Store is InMemoryArtifactStore (_store.py),
--                      Service the state and the transactions of ArtifactService (interface.py), Calls
--                      its methods on the view of a subject, and Runs sequences of them. Versions,
--                      Activations, Pruning, Retention, Kept, Written, Holding, Guarded,
--                      Decisions, Rollback and Failures are theorems.
--   HostState          src/assistant_runtime/services/host_state. Store is InMemoryHostStateStore
--                      (_store.py: get, list, put, delete with its tombstones), Service is
--                      HostStateService (interface.py) with its checks and errors. Versions and
--                      Contract are theorems.
--   Session            src/assistant_runtime/app/assistant. Types and Context are a session's context
--                      dict and the functions on it (_session_store.py: _add_message, _resolve_path,
--                      _refresh_cached_path_for_new_leaf, _latest_leaf_id, _context_from_loaded),
--                      StaleTools is _stale_tools.py, Persistence is the interface of
--                      _session_persistence.py, and Cache, Loading, Messages, Replies, Steering and State
--                      are the methods of SessionStore. Paths, Invariant, Replaced, Leaves, Loaded, InPlace,
--                      Resolved, CacheSound, MessagesSound, RepliesSound, StateSound, PendingSound, Runs,
--                      Repaired, Eviction, Delivery, Snapshots and Registered are theorems.
--   Streaming          src/assistant_runtime/app/streaming. Events is _event_builder.py as far as the
--                      coordinator uses it, Coordinator is EventCoordinator (_coordinator.py), Calls are
--                      sequences of its calls. Steps and Protocol are theorems.
--
-- How the code corresponds. A method is a function from the object's state to a result and a new state;
-- a raise is an `err` that keeps what was written before it. A dict is an association list in insertion
-- order, which is what Python's dicts keep. Times are numbers, and `now` is the time that a call reads.
-- A session's messages are shared by the index and the cached path; an assignment through one of them
-- changes both, and the model changes both.
--
-- Fuel. `_resolve_path` loops without a bound; `walk` has the size of the index as fuel, and a path
-- visits no message twice, so it is enough. `show` has the number itself.
--
-- What is a parameter. The database behind SessionPersistence, Pydantic AI's messages (Codec), `json.dumps`
-- (json_size), what the ingress service answers, `str.lower`, the host's `authenticate` callback, what
-- `uuid.UUID` reads, how the components of the lifecycle manager behave, and what a request's own rules say
-- of a task's or an agent's names and config.
-- The theorems on the session store assume that the database loads a session's messages with every parent
-- before its children.
--
-- Interleaving. The stores of Actions, Artifacts, EventLog and HostState hold one lock for a transaction, so a
-- transaction is one step; what a method does between two transactions is a step of its own where the
-- theorems are about concurrent calls (EventLog.Requests, Tasks.Ends). A step can come at any time and in
-- any order, and a request can stop for good between two of them. Elsewhere calls run one after the other;
-- in the code two tasks that load the same session at once share one load.
--
-- What is not modelled. The stores in the database, HTTP routes, sockets, the voice and tool providers, and
-- the agent loop, which are I/O or drive third-party code; health checks and the conversions to JSON; the
-- text form of a change cursor, which `datetime` reads; of SessionStore, list_sessions, count_messages,
-- cleanup_expired, message_changes and get_history; of TaskService, the records and the turns of an
-- agent's messages (only their jobs are), the order of
-- the jobs of one subject and the slots that they share; of ArtifactService, the diffs of proposals, the
-- listing of documents, the inputs of prompts and the cache of texts.
pub mod Prelude
pub mod Base
pub mod Access
pub mod Actions
pub mod EventLog
pub mod Tasks
pub mod Artifacts
pub mod HostState
pub mod Session
pub mod Streaming
