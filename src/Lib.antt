-- ===== src/Lib.antt =====
-- jobsd, a local job scheduler: its schedules, its SQLite stores and its daemon.
--
-- A client creates jobs in a SQLite database. The daemon ticks: it enqueues a run for every job
-- whose next run has come, by the policy of the job, and moves the job's next run on; it then claims
-- the runs that are waiting and starts them. When the executor returns, the daemon stores how the run
-- ended and delivers the job's on_finish hook.
--
-- The files, and the code that each of them models:
--   Domain, Domain/OnFinish: internal/domain; a Go string type is a data type of its constants with
--     `unknown` for any other text, times are nanoseconds since Go's zero time, pointers are options.
--   Env: what the program calls and does not implement (net/url, encoding/json, time, the cron
--     library), a record that the definitions take as an argument.
--   Schedule/Parser, Schedule/Next: internal/schedule; a text is the list of its code points.
--   Result, Action: errors as values, and calls on a state that may fail; what was done before an
--     error stays done.
--   Sqlite, Sqlite/Engine: migrations/sqlite and database/sql; a table is a list of rows, and the
--     engine may refuse any statement, which then changes nothing; a transaction is undone when its
--     body or its commit fails.
--   Sqlite/Runs, Sqlite/RunResults: internal/sqlite/runs_store.go.
--   Sqlite/Jobs, Sqlite/JobRecords: internal/sqlite/jobs_store.go.
--   Sqlite/Deliveries: internal/sqlite/run_hook_deliveries_store.go.
--   Daemon/Policy: internal/daemon/policy.go (EnqueueScheduledWithPolicy, EnqueueManualWithPolicy,
--     computeFutureNextRun).
--   Daemon/Loop, Daemon/Completion: internal/daemon/loop.go; `process_tick` is what Run does at a
--     tick, `complete_run` is what the goroutine of startRunExecution does once the executor returns.
--   Daemon/Executor: internal/daemon/executor.go. Daemon/Dispatcher: internal/daemon/on_finish.go.
--   Sqlite/Metadata: internal/sqlite/metadata_store.go. Sqlite/Migrate: internal/sqlite/migrate.go.
--   Daemon/State: internal/daemon/state.go; files answer as a counter of the calls says, so that any
--     call may fail.
--   Daemon/Control: the handlers of internal/daemon/control.go. Daemon/Server, Daemon/Server/Serve:
--     internal/daemon/server.go, with internal/lock and internal/sqlite/db.go; a deferred function is
--     `deferred`, and the variables that it reads are fields of the state.
--   Config: internal/config/paths.go.
--   App/Jobs, App/Update: internal/app/job.go; App/Support: internal/app/job_support.go and
--     on_finish_support.go; App/Client: internal/app/scheduler_client.go.
--   App/Runs: internal/app/run.go; App/Scheduler, App/Instance: internal/app/scheduler.go; a wait takes
--     the list of what its polls find before the deadline.
--   App/InstanceDb: internal/app/instance_db.go; App/CommandLine: two commands of internal/app/job.go from
--     their flags to the closing of the database; Output, App/Print, App/Version: internal/output/printer.go
--     and the print functions of internal/app; what the tab writer makes of its text is a parameter.
--   Sqlite/Operations: the operations of the stores as data; Sqlite/Sound, Sqlite/Rows: what all of them
--     keep of the tables.
--   Common: lists over the native numbers, signed integers, texts. Examples: test data, and the
--     theorems at one job.
--
-- The loop of computeFutureNextRun takes fuel, and `hang` says that it was used up. For a schedule
-- with a duration a round for each nanosecond that the job is late is enough, since each round moves
-- on by at least one; for a cron schedule no fuel need be enough. The rounds of RemoveState, which a
-- deadline ends, are an argument, and any number will do. All other loops are structural. A receive
-- from a channel that has had its one value is `hang`, too.
--
-- Stored times have no fraction of a second, as RFC 3339 text has none. Ids and counts are unbounded
-- numbers. The texts of errors are kept only as far as callers tell errors apart.
--
-- Not modelled: the flags of cobra; the HTTP server and the listener beyond what
-- they answer; the lock of Windows; goroutines and mutexes within one step of the loop; the starting
-- of processes.

pub mod Common
pub mod Result
pub mod Action
pub mod Domain
pub mod Env
pub mod Schedule
pub mod Sqlite
pub mod Daemon
pub mod Output
pub mod App
pub mod Config
pub mod Examples
