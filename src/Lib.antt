-- ===== src/Lib.antt =====
-- Vibeshkoder: a community bot for Telegram with a governed memory. This library models three parts of it.
-- The Butler is the assistant that turns a member's request into a plan, asks everybody whom the plan
-- affects, executes it only with their consent, and can take it back. The forget cascade erases what
-- the memory holds of a message or of a user, layer by layer, when somebody has asked to be forgotten.
-- The quota admits two paid questions of a member and day, and is kept in a table of attempts.
--
-- The parts of the program. bot/services/butler.py holds the service, one method per operation; the
-- methods read and write through the repositories of bot/db/repos/, and they call an evidence builder
-- (bot/services/butler_evidence.py), a language-model gateway (bot/services/llm_gateway.py), a
-- registry of tools (bot/services/butler_tools/) and Telegram. A background worker
-- (bot/services/forget_cascade.py) takes the pending rows of forget_events (bot/db/repos/forget_event.py)
-- in batches and runs for each the layers of CASCADE_LAYER_ORDER, of which four write the Butler's tables and
-- want the row locks of its actions; bot/services/forget_predicate.py hides what an event
-- targets meanwhile. The question handler calls bot/db/repos/semantic_quota.py before it asks a provider,
-- around the delivery of the answer, and at the end. Each call of a handler is
-- a transaction of bot/middlewares/db_session.py: it is committed when the handler returns, also where it
-- caught one of the service's errors, so that the writes before the raise stay, and rolled back when an
-- exception escapes; what was done outside stays done. The restoring of a message by an import
-- (bot/services/message_persistence.py) supersedes the forget events that name it.
--
-- The files. Base holds what is shared: tests, lists, tables, JSON values, and in Base.Exec the monad of
-- a method: a state, and a result beside it that is a value or an error.
--   Butler.Model      the rows of bot/db/models.py, the statuses, the errors, the World: the tables,
--                     the clock, the locked rows and the log of the effects outside
--   Butler.Repos.*    bot/db/repos/butler_action.py, butler_action_confirmation.py,
--                     butler_tool_invocation.py, butler_undo_invocation.py, user.py
--   Butler.Buckets    bot/db/repos/butler_rate_bucket.py; Counts: its counters
--   Butler.Windows    the MSK calendar windows of butler.py; Laws
--   Butler.Services   what the constructor injects and the libraries, as the fields of a record
--   Butler.Plan       plan_action, with its checks in Guards; Asks: whom a plan asks;
--                     Taken and Counters: what a call takes from the counters
--   Butler.Confirm    confirm_action; Accepted: what an accepted confirmation says
--   Butler.Execute    execute_action
--   Butler.Undo       execute_undo and its helpers
--   Butler.Withdraw   cancel_action, revoke_affected_user_consent, expire_action; Laws; Expiry; Sweep: the bulk
--                     expiry
--   Butler.Runs       sequences of calls of all of these, from any users and in any order, with steps of
--                     the environment between them; which calls are committed
--   Butler.Consent.*  the invariant of consent over all runs: Rows (each statement that writes), one
--                     file for the methods of each kind, Runs (the runs)
--   Butler.Once.*     what an execution leaves of its action, over all runs: the rows, the methods, the runs
--   Butler.Tests      a small deployment
--   Forget.Model      the rows of forget_events and of the tables that the layers read and write
--   Forget.Events     bot/db/repos/forget_event.py, and the UPDATE of bot/services/message_persistence.py
--   Forget.Targets    the resolvers of the cascade, and bot/services/forget_predicate.py
--   Forget.Layers.*   the `_cascade_...` functions: Messages, Questions, Semantic, Butler
--   Forget.Order      CASCADE_LAYER_ORDER, the types to which a layer applies, the entries of cascade_status
--   Forget.Cascade    _process_one_event; Forget.Worker: run_cascade_worker_once and cascade_worker_tick
--   Forget.Rows, Lifecycle, Superseded, Keys, Tracked, Runs   the rows of the events: one by its id, along its life, by its
--                     keys, through the worker, and over sequences of calls
--   Forget.Passage, Marks, Places, Outcome   the loop over the layers and how it ends
--   Forget.Batch, Counts   the worker's batch and its counts; Hidden: the predicate over a run
--   Forget.Erasure.*  the tables along the layers: Swept and Statements (rows), Sweeps and Every (layers),
--                     Through (the loop), User, Semantic and Butler (the layers of a user's event), Complete
--   Forget.Export, Execution   events of the type export; execute_action after a cascade
--   Forget.Tests      a small database
--   Quota.Model       semantic_qa_attempts of bot/db/models.py and its CHECK, and the Moscow day
--   Quota.Attempts    bot/db/repos/semantic_quota.py, the quota of two paid questions a day; Finalize: finalize
--   Quota.Slots, Free, Writes, Runs, Bounds   who holds a slot, the free slot, the UPDATEs, sequences of calls
--   Quota.Replay, Denials, Again   reserve with a key that is taken, and when it denies; finalize called twice
--   Quota.Tests       a table of one attempt
-- A parameter `sv` of a theorem is a `Services`: the theorem holds for every evidence builder, gateway,
-- registry and Telegram. A parameter `out` is an `Outside`: what the layers on digests, wiki pages, cards and the graph
-- do to their own tables, Python's reading of an integer, and the number that a hash of an id is.
--
-- Bounds. Nothing runs on fuel: the loops of the code run over lists, and are structural recursion. Ids
-- are naturals, which the code only compares. Times are microseconds of UTC, and one call takes one
-- instant of the clock. A key of a day or an hour is the number of that day or hour in MSK.
--
-- Not modelled: the fallbacks of the service for test doubles (a user repository or undo repositories
-- that are None), logging, the columns that no method reads (created_at, updated_at, error_context), the
-- flush and the SQL of the statements, the five layers of the cascade just named, the branches for SQLite, the
-- unique indexes of the quota's table, on the key and on the active slots, its advisory lock (the calls of
-- a run follow one another), the CHECK
-- constraints on a row's texts, which the gateway's validation of a plan answers for, and the other parts
-- of the bot. The CHECK constraints that a write of
-- these methods may break are modelled: the inverse and the ledger row of an action, the ceiling of a
-- counter, the kind of an undo row.
pub mod Base
pub mod Butler
pub mod Forget
pub mod Quota
