-- ===== src/Sqlite/Runs.antt =====
-- internal/sqlite/runs_store.go
pub mod Claims
pub mod Pending
pub mod Served
pub mod Oldest
use jobsd.Common.{
  ℕ, zero, suc, ◌+◌, ltb, leb, ◌==◌, Bool, true, false, not, ◌&&◌, ◌||◌, Option, none, some, List,
  [], ◌∷◌, ◌++◌, String, ℤ, if◌then◌else◌, is_none, select, find_where, update_where, count_where,
  sort_by, take,
}
use jobsd.Result.{Error, constraint, run_not_found, invalid, Result, ok, err, hang, ◌>>=◌ as bind}
use jobsd.Action.{Action, pure, lift, ◌>>=◌, ◌>>◌, refuse_if}
use jobsd.Domain.{
  Time, Run, RunOutput, RunStatus, RunTriggerType, trigger_type_is_valid, run_status_is_valid,
  is_pending, is_running, is_zero_time,
}
use jobsd.Sqlite.{
  Stamp, Tables, JobRow, RunRow, OutputRow, format_time, parse_time, parse_time_ptr, bool_to_int,
}
use jobsd.Sqlite.Engine.{Db, exec, query, transaction}

-- The columns of runBaseSelect: a run, and the name of its job.
abbrev pub Joined : Type 0
Joined = RunRow × String

-- FROM job_runs jr JOIN jobs j ON j.id = jr.job_id WHERE test
unfoldable pub join_jobs : (RunRow → Bool) → List JobRow → List RunRow → List Joined
join_jobs test jobs [] = []
join_jobs test jobs (r ∷ rs) =
    let rest = join_jobs test jobs rs in
    if test r
    then elim (find_where (λ j. j.id == r.job_id) jobs) [
      | none ↦ rest
      | some j ↦ (r, j.name) ∷ rest
    ]
    else rest

-- hydrateRunBase
unfoldable pub hydrate_run_base : Joined → Result Run
hydrate_run_base (r, job_name) =
    if not (trigger_type_is_valid r.trigger_type)
    then err (invalid "invalid run trigger type")
    else if not (run_status_is_valid r.status)
    then err (invalid "invalid run status")
    else ok (record {
      id = r.id;
      job_id = r.job_id;
      job_name = job_name;
      trigger_type = r.trigger_type;
      status = r.status;
      scheduled_for = parse_time_ptr r.scheduled_for;
      queued_at = parse_time r.queued_at;
      started_at = parse_time_ptr r.started_at;
      finished_at = parse_time_ptr r.finished_at;
      exit_code = r.exit_code;
      error_message = r.error_message;
      runner_id = r.runner_id;
      output = none;
    })

-- scanRuns
unfoldable pub scan_runs : List Joined → Result (List Run)
unfolding hydrate_run_base
scan_runs [] = ok []
scan_runs (row ∷ rows) =
    bind (hydrate_run_base row) (λ run. bind (scan_runs rows) (λ runs. ok (run ∷ runs)))

-- ORDER BY jr.queued_at ASC, jr.id ASC
abbrev pub queued_before : Joined → Joined → Bool
queued_before (r, m) (s, n) =
    ltb r.queued_at s.queued_at || (r.queued_at == s.queued_at && leb r.id s.id)

-- the row that `SELECT … WHERE jr.id = ?` reads
abbrev pub first_run : List Joined → Result Run
first_run [] = err run_not_found
first_run (row ∷ rows) = hydrate_run_base row

-- getRun without the output
unfoldable pub get_run : ℕ → Action Db Run
unfolding hydrate_run_base
get_run run_id = do
  rows ← query (λ t. join_jobs (λ r. r.id == run_id) t.jobs t.runs)
  lift (first_run rows)

-- INSERT INTO job_runs: the schema wants the job to be there.
unfoldable pub insert_run : ℕ → RunTriggerType → Option Stamp → Stamp → Tables → Result (ℕ × Tables)
insert_run job_id trigger scheduled_for queued_at t =
    if is_none (find_where (λ j. j.id == job_id) t.jobs)
    then err constraint
    else ok (
      suc t.run_seq,
      record t {
        run_seq = suc t.run_seq;
        runs =
            t.runs
            ++ record {
              id = suc t.run_seq;
              job_id = job_id;
              trigger_type = trigger;
              status = RunStatus.pending;
              scheduled_for = scheduled_for;
              queued_at = queued_at;
              started_at = none;
              finished_at = none;
              exit_code = none;
              error_message = none;
              runner_id = none;
            }
              ∷ [];
      },
    )

unfoldable pub enqueue_manual : ℕ → Time → Action Db Run
unfolding insert_run
enqueue_manual job_id queued_at = do
  id ← exec (insert_run job_id RunTriggerType.manual none (format_time queued_at))
  get_run id

unfoldable pub enqueue_scheduled : ℕ → Time → Time → Action Db Run
unfolding insert_run
enqueue_scheduled job_id scheduled_for queued_at = do
  id ← exec (
      insert_run job_id RunTriggerType.schedule (some (format_time scheduled_for))
        (format_time queued_at))
  get_run id

-- status = 'pending' AND runner_id IS NULL
abbrev pub is_unclaimed : RunRow → Bool
is_unclaimed r = is_pending r.status && is_none r.runner_id

-- the rows of ListPending, before they are scanned
unfoldable pub pending_rows : ℕ → Tables → List Joined
pending_rows limit t = take limit (sort_by queued_before (join_jobs is_unclaimed t.jobs t.runs))

-- ListPending; a limit that is not positive is 0
unfoldable pub list_pending : ℕ → Action Db (List Run)
unfolding pending_rows
list_pending limit =
    if limit == 0 then pure [] else do rows ← query (pending_rows limit); lift (scan_runs rows)

abbrev pub claims : ℕ → RunRow → Bool
claims run_id r = r.id == run_id && is_unclaimed r

-- UPDATE job_runs SET runner_id = ? WHERE id = ? AND status = 'pending' AND runner_id IS NULL,
-- with the number of rows that it changed
unfoldable pub claim : ℕ → String → Tables → Result (ℕ × Tables)
claim run_id runner t = ok (
  count_where (claims run_id) t.runs,
  record t {
    runs = update_where (claims run_id) (λ r. record r { runner_id = some runner }) t.runs;
  },
)

unfoldable pub try_claim_pending : ℕ → String → Action Db Bool
unfolding claim
try_claim_pending run_id runner = do affected ← exec (claim run_id runner); pure (ltb 0 affected)

-- the loop of ClaimPending over the candidates
unfoldable pub claim_all : String → List Run → Action Db (List Run)
unfolding claim
claim_all runner [] = pure []
claim_all runner (run ∷ runs) = do
  affected ← exec (claim run.id runner)
  claimed ← claim_all runner runs
  pure (if affected == 0 then claimed else record run { runner_id = some runner } ∷ claimed)

unfoldable pub claim_pending : String → ℕ → Action Db (List Run)
unfolding pending_rows claim_all
claim_pending runner limit =
    if limit == 0
    then pure []
    else transaction do
      rows ← query (pending_rows limit)
      candidates ← lift (scan_runs rows)
      claim_all runner candidates

abbrev pub starts : ℕ → RunRow → Bool
starts run_id r = r.id == run_id && is_pending r.status

unfoldable pub start : ℕ → Stamp → Tables → Result (ℕ × Tables)
start run_id at t = ok (
  count_where (starts run_id) t.runs,
  record t {
    runs =
        update_where (starts run_id)
          (λ r. record r { status = RunStatus.running; started_at = some at }) t.runs;
  },
)

unfoldable pub run_exists : ℕ → Action Db Bool
run_exists run_id = query (λ t. ltb 0 (count_where (λ r. r.id == run_id) t.runs))

unfoldable pub mark_running : ℕ → Time → Action Db Unit
unfolding start run_exists
mark_running run_id started_at = do
  affected ← exec (start run_id (format_time started_at))
  if ltb 0 affected then pure tt else do
    exists ← run_exists run_id
    lift (if exists then err (invalid "run is not pending") else err run_not_found)

-- ListUnfinishedByJob
abbrev pub unfinished_of : ℕ → RunRow → Bool
unfinished_of job_id r = r.job_id == job_id && (is_pending r.status || is_running r.status)

unfoldable pub list_unfinished_by_job : ℕ → Action Db (List Run)
list_unfinished_by_job job_id = do
  rows ← query (λ t. sort_by queued_before (join_jobs (unfinished_of job_id) t.jobs t.runs))
  lift (scan_runs rows)
