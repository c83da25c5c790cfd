-- ===== src/Lib.antt =====
-- llama-pack: a controller of machines that serve language models. It keeps a queue of jobs that
-- nodes claim and report on, and collections of documents that are cut into chunks for retrieval.
--
-- The files, and the code that they model:
-- - Prelude: what the parts share. Numbers, tests, lists, dictionaries, JSON values and texts, as
--   the program uses Python's and the standard library's.
-- - Orchestration: the job queue, llama_pack/core/orchestration.
--   + Rows: the tables of llama_pack/core/persistence/models/orchestration.py, as records (JobOrm is
--     Job, JobAttemptOrm is Attempt, and so on), with the queries on them.
--   + Tx: a transaction as a function from the tables to a result, an exception or a value and the
--     tables after it. An exception leaves the tables as they were (`settled`), as `store.tx()` of
--     store_orm.py rolls back.
--   + Repo and Matching: repo.py; Lifecycle: lifecycle.py; Retention: retention.py; Leader: the
--     lease of orchestrator.py. A function has the name of the method without its underscore.
--   + Runs: the methods of Orchestrator that change the tables, one after another.
--   + Laws, Bounded and Sweeping with their children, Canceled and its children, PruneOnce,
--     Leadership, Pinned: the proofs.
-- - Documents: llama_pack/core/document_collections/chunking.py.
--   + Chunking: the functions; Lengths, Overlaps, Endless, Ending, Spans: the proofs on their
--     loops; Calls: the call as a whole.
-- - Chat: llama_pack/core/chat/slot_allocator.py and target_resolver.py.
--   + Slots: the allocator, with its two dictionaries of dictionaries; Owners: what a call does to
--     them; Sharing: sequences of calls.
--   + Targets: the resolver; Resolved: what its targets rest on.
-- - Plugins: llama_pack/core/plugins/hooks.py.
--   + Hooks: the registry of policy hooks and a run of them, with the handlers and Python's `str` as
--     parameters; Registered: the registry after calls; Policies: what a run decides.
-- - Threads: llama_pack/core/threads.
--   + Routing: routing.py. Probes, Availability, Choice and Plugin: the policy's data and methods,
--     a candidate's dictionary as a record, a mutated candidate as a new one in the list; Served,
--     Presence, Startup, Sources, Decided, Sound: what a decision rests on; Complete, Exhausted,
--     Liveness: what an error
--     means; Order, Preference, Fanout, Composed: which candidate is chosen, and what follows.
--   + Session: the state and the calls of the services, as functions from the tables to a result or
--     an exception and the tables after it; what was written before an exception stays.
--   + Store: store.py; Events: events.py; FanoutRun: fanout.py; Turns and Preparing: turns.py;
--     Context and Compaction: context.py; Summaries: chat/context_management.py and the token
--     estimate of chat/context_budget.py; Calls: calls of the services, one after another.
--   + Steps, Programs, TurnSteps: what each service does to the tables; Timeline, History: what
--     holds of all events; Results, Following, Trace, FanTrace, Assigned, ReadBack, Content: what a call that returned did.
--
-- How the parts interact: the orchestrator passes its settings to the repository, which reads and
-- writes the tables in one transaction for each call. Calls of several nodes and of several
-- controllers are therefore a sequence, and the theorems on runs hold for each. The allocator of
-- slots is called by the chat routes for each request, and keeps its state between the calls.
-- A turn of a thread reads the thread's events for the node and the model of the last answer, asks
-- the routing policy, and writes its decision as an event, which the next turns read. Exceptions of
-- subscribers of the event bus stay there, and the bus is modelled as what it was sent.
-- The chat scheduler runs the policy hooks before it admits a request.
--
-- What is chosen: times are numbers (the program compares ISO texts of one format), and the clock
-- is an argument, read once for each call. Ids come from a supply that counts up, of which only
-- freshness is used. JSON columns hold JSON values. A session's rows have no order in the source
-- beyond `order_by`; ties are in table order.
--
-- Fuel: `chunk_loop` takes the number of its rounds, since the program's loop need not end. As many
-- rounds as there are words are enough where each word fits together with the overlap and a space.
-- The search for a free slot takes one round for each slot up to the highest that is owned, and one
-- more, which finds one. `chunks` takes one round for each value, which is enough for a size of at
-- least one.
--
-- Not modelled: queries that only read, the archive that is written to a file, the delivery of
-- messages by the event bus, workflows and the loading of models for them, HTTP, processes, and the
-- parts of the program that are named in no file above. What routing asks is answered alike
-- throughout one choice, and may be answered otherwise at the next.
pub mod Prelude
pub mod Orchestration
pub mod Documents
pub mod Chat
pub mod Plugins
pub mod Threads
