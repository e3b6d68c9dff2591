-- ===== src/Lib.antt =====
-- The memory service: sessions of an agent are kept in Redis, archived in MongoDB, extracted into
-- long-term memories by a worker that consumes Kafka events, retrieved, and consolidated.
--
-- Shared: the names, tests, lists and effects that all parts use. `Shared.Exec` is an action with
--   a state and exceptions, `Shared.Returns` its total correctness, `Shared.Triples` what
--   it leaves behind when it returns and when it raises.
-- Extraction: src/memory_system/domain/services/extraction_task_consumer_service.py (Consumer),
--   extraction_admin_service.py and archive_event_republish_service.py (Admin), over
--   src/memory_system/infrastructure/mongodb/extraction_task_repository.py (Repository). MongoDB is
--   the parameter `Collection` with its documented laws; `Extraction.World` adds what other workers
--   do between two calls, the faults of the connection, the clock and the uuid generator. The
--   functions have the names of the source; an `if` ladder over a status is a function by clauses.
--   Logs and metrics are left out, and stored documents are read as well-formed.
-- Stm: src/memory_system/domain/services/session_close_service.py (Split, Plan, Close) and
--   compression_coordinator_service.py (Select, Round, Rounds): the selection of an archive, one round
--   of compression and the rounds of a request, over the services that a round calls, which are a
--   parameter with any state; the writing of a message is not modelled. The calls of a close
--   are entered in a history, and their answers are a parameter, a function of the history: this
--   covers every behaviour of Redis, MongoDB and Kafka and of other requests. `create_archive` stands
--   for `create_or_reuse_context_archive`, the other calls for one Lua script or one client call each.
--   Settings and token counts are natural numbers; the compression version and the pending count may
--   be negative. `shrink_loop` has the length of its list as fuel, which is enough since each turn
--   drops a message.
-- Consolidation: src/memory_system/domain/services/consolidation_importance.py (Importance),
--   consolidation_batch_service.py (Batch), consolidation_write_service.py (Write) and
--   consolidation_run_service.py with src/memory_system/infrastructure/consolidation_mutex.py (Run).
--   The arithmetic of floats is the parameter `Double`; the repositories, the clock and the uuid are
--   the parameter `Services`, with any state, which also says how many triggers of further runs arrive
--   during a call: each of them tries to acquire the mutex. A saturation count of zero, for which
--   Python divides by a zero logarithm and raises, is not modelled: `over` has a value. Nor is the
--   OverflowError of an age in seconds that no float holds. The `while` loop over the
--   batches of a user runs on fuel, which is enough when it exceeds the memories of each user;
--   running out is the fault `stuck`, which no handler catches. `version_conflict_count` is a
--   subtraction that is exact when the repository answers at most the rows it is given.
-- Kafka: src/memory_system/infrastructure/kafka/archive_created_publisher.py and the messages of
--   archive_created_consumer.py (Wire), and the poll loop of the latter (Loop) around the handler of
--   Extraction. Python's codecs and pydantic are the parameter `Codec`; the Kafka client, the clock,
--   the signals, `asyncio.wait_for` and what a cancelled handler leaves are the parameter `Client`.
--   `call_commit` makes each commit and enters its arguments, with the collection of that time,
--   in a list. It runs on fuel, which
--   is enough when it exceeds the polls until the client stops. The client's construction from its
--   settings is left out.
-- Reconciliation: src/memory_system/domain/services/reconciliation_plan_builder.py over the records of
--   src/memory_system/domain/models/reconciliation.py (Candidate): the groups of the candidates
--   (Groups), what is chosen from a group (Choice) and the plan (Plan). Floats, the normalisation of
--   a content and the ids of new memories are parameters; a dict is a list in the order of insertion.
-- Not modelled: the extraction pipeline (a parameter of the consumer), the calls around the
--   reconciliation plan, the graph write, retrieval, the Lua scripts and the clients of Redis, Neo4j,
--   Elasticsearch and the language models, the HTTP routes, metrics and logs.
pub mod Shared
pub mod Consolidation
pub mod Extraction
pub mod Kafka
pub mod Reconciliation
pub mod Stm
