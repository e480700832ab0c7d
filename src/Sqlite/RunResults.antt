-- ===== src/Sqlite/RunResults.antt =====
-- internal/sqlite/runs_store.go: how runs end, and what a client reads of them.
pub mod Finishing
pub mod Scanned
pub mod ReadBack
use text.Mathlib.Text.{◌==◌ as str_eq}
use jobsd.Common.{
  ℕ, zero, suc, ltb, leb, ◌==◌, Bool, true, false, not, ◌&&◌, ◌||◌, Option, none, some, List, [],
  ◌∷◌, ◌++◌, String, ℤ, if◌then◌else◌, is_none, select, find_where, update_where, count_where,
  sort_by, take,
}
use jobsd.Result.{Error, constraint, run_not_found, invalid, Result, ok, err, hang, ◌>>=◌ as bind}
use jobsd.Action.{Action, pure, lift, ◌>>=◌, ◌>>◌, refuse_if}
use jobsd.Domain.{
  Time, Run, RunOutput, RunStatus, run_status_is_valid, is_pending, is_running, is_zero_time,
}
use jobsd.Sqlite.{Stamp, Tables, JobRow, RunRow, OutputRow, format_time, parse_time, bool_to_int}
use jobsd.Sqlite.Engine.{Db, exec, query, transaction}
use jobsd.Sqlite.Runs.{Joined, join_jobs, scan_runs, hydrate_run_base, queued_before}

pub record FinishRunParams : Type 0 where
  pub run_id : ℕ
  pub status : RunStatus
  pub finished_at : Time
  pub exit_code : Option ℤ
  pub error_message : Option String
  pub output : Option RunOutput

-- an output that is there and has no time
abbrev pub is_undated : Option RunOutput → Bool
is_undated none = false
is_undated (some o) = is_zero_time o.updated_at

abbrev pub ended : FinishRunParams → RunRow → RunRow
ended p r = record r {
  status = p.status;
  finished_at = some (format_time p.finished_at);
  exit_code = p.exit_code;
  error_message = p.error_message;
  runner_id = none;
}

-- UPDATE job_runs SET … WHERE id = ?
unfoldable pub end_run : FinishRunParams → Tables → Result (ℕ × Tables)
end_run p t = ok (
  count_where (λ r. r.id == p.run_id) t.runs,
  record t { runs = update_where (λ r. r.id == p.run_id) (ended p) t.runs },
)

abbrev pub output_row : ℕ → RunOutput → OutputRow
output_row run_id o = record {
  run_id = run_id;
  stdout_text = o.stdout;
  stderr_text = o.stderr;
  stdout_truncated = bool_to_int o.stdout_truncated;
  stderr_truncated = bool_to_int o.stderr_truncated;
  updated_at = format_time o.updated_at;
}

-- INSERT … ON CONFLICT(run_id) DO UPDATE, on the rows
unfoldable pub upsert_row : OutputRow → List OutputRow → List OutputRow
upsert_row new [] = new ∷ []
upsert_row new (o ∷ os) =
    let rest = upsert_row new os in if o.run_id == new.run_id then new ∷ os else o ∷ rest

-- the statement: the schema wants the run to be there
unfoldable pub put_output : ℕ → RunOutput → Tables → Result (Unit {0} × Tables)
unfolding upsert_row
put_output run_id o t =
    if count_where (λ r. r.id == run_id) t.runs == 0
    then err constraint
    else ok (tt, record t { outputs = upsert_row (output_row run_id o) t.outputs })

unfoldable pub upsert_output : ℕ → Option RunOutput → Action Db Unit
unfolding put_output
upsert_output run_id none = pure tt
upsert_output run_id (some o) = exec (put_output run_id o)

-- the transaction of MarkFinished
unfoldable pub store_end : FinishRunParams → Action Db Unit
unfolding end_run upsert_output
store_end p = do
  affected ← exec (end_run p)
  refuse_if (affected == 0) run_not_found
  upsert_output p.run_id p.output

unfoldable pub mark_finished : FinishRunParams → Action Db Unit
unfolding store_end
mark_finished p = do
  refuse_if (not (run_status_is_valid p.status)) (invalid "invalid run status")
  refuse_if (is_pending p.status || is_running p.status) (invalid "run status is not terminal")
  refuse_if (is_undated p.output) (invalid "output updated_at must be set")
  transaction (store_end p)

abbrev pub pending_of : ℕ → RunRow → Bool
pending_of job_id r = r.job_id == job_id && is_pending r.status

abbrev pub canceled_at : Stamp → RunRow → RunRow
canceled_at at r = record r { status = RunStatus.canceled; finished_at = some at; runner_id = none }

unfoldable pub cancel_pending : ℕ → Stamp → Tables → Result (Unit {0} × Tables)
cancel_pending job_id at t =
    ok (tt, record t { runs = update_where (pending_of job_id) (canceled_at at) t.runs })

unfoldable pub cancel_pending_by_job : ℕ → Time → Action Db Unit
unfolding cancel_pending
cancel_pending_by_job job_id at = exec (cancel_pending job_id (format_time at))

pub record ListRunsFilter : Type 0 where
  pub job_name : String
  pub status : Option RunStatus
  pub limit : ℕ

abbrev pub same_status : RunStatus → RunStatus → Bool
same_status RunStatus.pending RunStatus.pending = true
same_status RunStatus.running RunStatus.running = true
same_status RunStatus.succeeded RunStatus.succeeded = true
same_status RunStatus.failed RunStatus.failed = true
same_status RunStatus.canceled RunStatus.canceled = true
same_status (RunStatus.unknown s) (RunStatus.unknown t) = str_eq s t
same_status _ _ = false

abbrev pub status_fits : Option RunStatus → RunStatus → Bool
status_fits none s = true
status_fits (some want) s = same_status s want

abbrev pub name_fits : String → String → Bool
name_fits want name = str_eq want "" || str_eq name want

abbrev pub bad_filter : Option RunStatus → Bool
bad_filter none = false
bad_filter (some s) = not (run_status_is_valid s)

-- ORDER BY jr.queued_at DESC, jr.id DESC
abbrev pub queued_after : Joined → Joined → Bool
queued_after (r, m) (s, n) =
    ltb s.queued_at r.queued_at || (r.queued_at == s.queued_at && leb s.id r.id)

abbrev pub limited {ℓ} : {A : Type ℓ} → ℕ → List A → List A
limited n rows = if n == 0 then rows else take n rows

unfoldable pub listed_rows : ListRunsFilter → Tables → List Joined
listed_rows f t = limited f.limit (
    sort_by queued_after (
      select (λ row. name_fits f.job_name row.1)
        (join_jobs (λ r. status_fits f.status r.status) t.jobs t.runs)))

-- List
unfoldable pub list_runs : ListRunsFilter → Action Db (List Run)
unfolding listed_rows
list_runs f = do
  refuse_if (bad_filter f.status) (invalid "invalid run status filter")
  rows ← query (listed_rows f)
  lift (scan_runs rows)

-- intToBool
abbrev pub int_to_bool : ℕ → Result Bool
int_to_bool zero = ok false
int_to_bool (suc zero) = ok true
int_to_bool (suc (suc n)) = err (invalid "expected 0 or 1")

-- the output columns of scanRunWithOutput
unfoldable pub with_output : Option OutputRow → Run → Result Run
with_output none run = ok run
with_output (some o) run = bind (int_to_bool o.stdout_truncated) λ out.
    bind (int_to_bool o.stderr_truncated) λ errs. ok (record run {
      output = some (record {
        stdout = o.stdout_text;
        stderr = o.stderr_text;
        stdout_truncated = out;
        stderr_truncated = errs;
        updated_at = parse_time o.updated_at;
      });
    })

abbrev pub scan_run_with_output : List Joined → Option OutputRow → Result Run
scan_run_with_output [] o = err run_not_found
scan_run_with_output (row ∷ rows) o = bind (hydrate_run_base row) (with_output o)

abbrev pub run_and_output : ℕ → Tables → List Joined × Option OutputRow
run_and_output run_id t =
    (join_jobs (λ r. r.id == run_id) t.jobs t.runs, find_where (λ o. o.run_id == run_id) t.outputs)

-- Get
unfoldable pub get_run_with_output : ℕ → Action Db Run
unfolding with_output hydrate_run_base
get_run_with_output run_id = do
  found ← query (run_and_output run_id)
  lift (scan_run_with_output found.0 found.1)
