-- ===== src/Lib.antt =====
-- OrchestraThreads: the thread service of src/core/orchestra_thread, the Telegram listener of
-- src/core/telegram_bot_listener, the scheduler of src/core/scheduler_cron, the tasks of
-- src/core/task_registry, and the log decoder of src/core/docker_mcp.
--
-- Agents write to each other on threads, which are kept in PostgreSQL. A thread has two participants and
-- an owner, a status, and numbered events; a thread may have child threads. A message opens or continues
-- a thread, a notification sets its status and may end it, and a thread that ends closes all threads
-- below it. Events that wait for delivery are posted to the agents' callbacks by a background pass, and a
-- second one reminds the last sender of a quiet thread. The Telegram listener puts surveys to users,
-- records their answers in a state that it writes to a file, and reports a completed survey to the events
-- engine. The scheduler keeps jobs and their runs in PostgreSQL and gives the enabled jobs to APScheduler.
-- The task registry keeps tasks with checklists and comments in PostgreSQL.
--
-- The parts, and where they are modelled:
--   Text, Sql: Python texts as code points, and tables as lists of rows with the statements that the store
--     uses (WHERE, UPDATE, ORDER BY, LIMIT, unique keys).
--   Common: src/core/orchestra_thread/common.py, the statuses and the normalisation of input.
--   Rows: schema.sql and store_clock.py, the four tables, the store `Db` and the payloads.
--   Store/Agents, Creation, Events, Query, Delivery, Idempotency, Notifications: store_agents.py,
--     store_thread_creation.py, store_thread_events.py, store_thread_query.py, store_delivery.py,
--     store_idempotency.py and store_notifications.py, one function for each method.
--   Requests: service_message_requests.py and service_notification_requests.py.
--   Service/Config, Agents, Cards, Summary, Routing, Stop: service/runtime.py, service/thread_summary.py,
--     service_shared.py and the defaults of service_runtime_config.py.
--   Service/Message, Notification, Cascade, Delivery, Inactivity: service/flows/.
--   Change: what one locked block can do to the store, as primitive changes; Change/Steps has the step
--     relation `Step` and its closure `Run`, any sequence of locked blocks.
--   Invariant, Runs: what every primitive change keeps, and what holds in all reachable stores.
--   Descendants: the tree of threads, and the cascade, its end and its retry.
--   Requests/Checks, Service/Permissions, Service/Agents/Online, Store/Pairs, Store/Retries,
--     Common/Laws, Statuses: single operations.
--   Dict, Json: Python's dict, and JSON values with what telegram_bot_listener/json_types.py reads of them.
--   Telegram/Models, Codec: models.py, the records and their from_dict and to_dict.
--   Telegram/Sessions, History, StateStore: state_store_parts/sessions.py, state_store_parts/history.py and
--     state_store.py (with persistence.py), one function for each operation.
--   Telegram/Updates: update_filters.py, update_state_interactions.py, update_message_processing.py,
--     update_callback_processing.py, update_processor_runtime.py and update_polling.py.
--   Telegram/Payloads: http_payloads.py.
--   Telegram/Change, Invariant, Runs: what one operation can do to the state, what all of them keep, and
--     what holds in all reachable states.
--   Telegram/RoundTrip, Polling, Acknowledged, Strangers, Done, Views, Answers, Tokens, Buttons:
--     what the theorems show of the file, the updates, /done, the history, the answers and the buttons.
--   Cron/Rows, Jobs, JobRuns: scheduler_cron/schema.sql, common.py, store_jobs.py (with store_jobs_create.py
--     and store_jobs_list_update.py) and store_runs.py.
--   Cron/Engine: scheduler_engine_runtime.py and scheduler_engine_support.py.
--   Cron/Bootstrap: bootstrap_ops.py and bootstrap_data.py, the built-in jobs.
--   Cron/Settles, Sync, Names, Installed: what a run, a synchronisation and a bootstrap leave.
--   Tasks/Rows, Board, Checklists: task_registry/schema.sql, store_tasks.py, store_tasks_filters.py,
--     store_checklists.py, store_comments.py and mcp/tools_create.py.
--   Tasks/Laws, Listing: what the operations on tasks do, and what a list of them holds.
--   Docker/Logs, Frames: docker_mcp/log_decode.py, and the logs in Docker's raw stream format.
--   Examples: concrete runs.
--
-- A method that changes the store is a function `Db → Result A × Db` (`Exec`), so that what was written
-- before an error stays written. Each block that the thread service runs under its lock is one step; the blocks
-- of different requests may come in any order. Time and new ids are arguments. Within one pass
-- `asyncio.gather` runs its tasks one after the other, in the order of the list.
--
-- The cascade recurses on fuel, one more than the number of threads. Each level closes a thread that was
-- live, so the fuel is enough, also where parents form a cycle.
--
-- The operations of the Telegram listener hold one lock from start to end, so a run is a sequence of them.
-- What `int` makes of a text, `str` of a list, and the answers of the Bot API and the events engine are
-- parameters; the integers that the listener reads are not negative, and numbers have no fractions.
--
-- A write of the listener's file stores the JSON value of the state. Its texts are those that UTF-8 can
-- encode: what a lone surrogate does to the file is not modelled, nor is a file that holds no JSON.
--
-- APScheduler is a parameter of the scheduler's engine, with what it documents of adding and listing jobs
-- as the hypotheses `IsScheduler`; which values of a run PostgreSQL refuses is a parameter too. While the
-- action of a job runs, the store may change in any way; the completion of the run is not interleaved
-- with other tasks. Times of the scheduler are microseconds.
--
-- Not modelled: HTTP, MCP and client code, connection handling, the views of threads, event payloads,
-- settings from the environment, the handlers of the Telegram listener, the executor of scheduler_cron,
-- and the other services of src/core. The Unicode category test of `normalize_text_input` and the
-- replies of the callbacks are parameters. `str.lower` is that of ASCII.
pub mod Prelude
pub mod Text
pub mod Sql
pub mod Dict
pub mod Json
pub mod Telegram
pub mod Cron
pub mod Tasks
pub mod Docker
pub mod Common
pub mod Rows
pub mod Store
pub mod Requests
pub mod Service
pub mod Change
pub mod Invariant
pub mod Descendants
pub mod Runs
pub mod Examples
