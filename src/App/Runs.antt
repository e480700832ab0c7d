-- ===== src/App/Runs.antt =====
-- internal/app/run.go: the commands that show runs.
use jobsd.Common.{ℕ, Bool, false, not, Option, none, some, List, [], map, String, ℤ}
use jobsd.Common.Int.{is_nonpositive, pos_part}
use jobsd.Result.{Error, invalid}
use jobsd.Action.{Action, pure, refuse_if, ◌>>=◌, ◌>>◌}
use jobsd.Domain.{Run, RunOutput, RunStatus, RunTriggerType, run_status_is_valid}
use jobsd.Sqlite.{Stamp, format_time, format_time_ptr}
use jobsd.Sqlite.Engine.{Db}
use jobsd.Sqlite.RunResults.{list_runs, get_run_with_output}
use jobsd.App.Support.{RunSummary, run_summary_from_domain, preview_output, format_duration}
use jobsd.App.Jobs.{or_error, validate_value}

pub record RunOutputDetail : Type 0 where
  pub stdout : List ℕ
  pub stderr : List ℕ
  pub stdout_truncated : Bool
  pub stderr_truncated : Bool
  pub updated_at : Stamp

pub record RunDetail : Type 0 where
  pub id : ℕ
  pub job : String
  pub job_id : ℕ
  pub trigger_type : RunTriggerType
  pub status : RunStatus
  pub scheduled_for : Option Stamp
  pub queued_at : Stamp
  pub started_at : Option Stamp
  pub finished_at : Option Stamp
  pub duration : Option ℤ
  pub exit_code : Option ℤ
  pub error_message : Option String
  pub runner_id : Option String
  pub stdout_truncated : Bool
  pub stderr_truncated : Bool
  pub stdout_preview : List ℕ
  pub stderr_preview : List ℕ
  pub output_updated_at : Option Stamp
  pub output : Option RunOutputDetail

unfoldable pub run_output_detail : RunOutput → RunOutputDetail
run_output_detail o = record {
  stdout = o.stdout;
  stderr = o.stderr;
  stdout_truncated = o.stdout_truncated;
  stderr_truncated = o.stderr_truncated;
  updated_at = format_time o.updated_at;
}

-- `if run.Output != nil { … }`
abbrev pub with_output_detail : Option RunOutput → RunDetail → RunDetail
with_output_detail none detail = detail
with_output_detail (some o) detail = record detail {
  stdout_truncated = o.stdout_truncated;
  stderr_truncated = o.stderr_truncated;
  stdout_preview = preview_output o.stdout 120;
  stderr_preview = preview_output o.stderr 120;
  output_updated_at = some (format_time o.updated_at);
  output = some (run_output_detail o);
}

unfoldable pub run_detail_from_domain : Run → RunDetail
run_detail_from_domain run = with_output_detail run.output (record {
  id = run.id;
  job = run.job_name;
  job_id = run.job_id;
  trigger_type = run.trigger_type;
  status = run.status;
  scheduled_for = format_time_ptr run.scheduled_for;
  queued_at = format_time run.queued_at;
  started_at = format_time_ptr run.started_at;
  finished_at = format_time_ptr run.finished_at;
  duration = format_duration run.started_at run.finished_at;
  exit_code = run.exit_code;
  error_message = run.error_message;
  runner_id = run.runner_id;
  stdout_truncated = false;
  stderr_truncated = false;
  stdout_preview = [];
  stderr_preview = [];
  output_updated_at = none;
  output = none;
})

-- the flags of `run list`; those not given are none
pub record ListFlags : Type 0 where
  pub job_name : Option String
  pub status : Option RunStatus
  pub limit : Option ℤ

abbrev pub check_job : Option String → Action Db Unit
check_job none = pure tt
check_job (some name) = validate_value name

abbrev pub check_status : Option RunStatus → Action Db Unit
check_status none = pure tt
check_status (some status) =
    refuse_if (not (run_status_is_valid status)) (invalid "invalid run status")

abbrev pub check_limit : Option ℤ → Action Db Unit
check_limit none = pure tt
check_limit (some limit) =
    refuse_if (is_nonpositive limit) (invalid "limit must be greater than zero")

-- the value of --job and of --limit, with their defaults
abbrev pub name_of : Option String → String
name_of none = ""
name_of (some name) = name

abbrev pub limit_of : Option ℤ → ℕ
limit_of none = 20
limit_of (some limit) = pos_part limit

-- `run list`
unfoldable pub run_list_command : ListFlags → Action Db (List RunSummary)
run_list_command f = do
  check_job f.job_name
  check_status f.status
  check_limit f.limit
  runs ←
      list_runs
        (record { job_name = name_of f.job_name; status = f.status; limit = limit_of f.limit })
  pure (map run_summary_from_domain runs)

-- runLookupError: the text of the answer takes the place of the sentinel
abbrev pub run_lookup_error : Error → Error
run_lookup_error Error.run_not_found = invalid "run not found"
run_lookup_error e = e

-- `run get`
unfoldable pub run_get_command : ℤ → Action Db RunDetail
run_get_command run_id = do
  refuse_if (is_nonpositive run_id) (invalid "run-id must be greater than zero")
  run ← or_error run_lookup_error (get_run_with_output (pos_part run_id))
  pure (run_detail_from_domain run)
