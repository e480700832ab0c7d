-- ===== src/Sqlite/JobRecords.antt =====
-- internal/sqlite/jobs_store.go: the operations that write or read a whole job.
pub mod Stored
use jobsd.Common.{
  ℕ, not, ◌&&◌, Option, none, some, List, [], ◌∷◌, String, if◌then◌else◌, is_none, sort_by, select,
}
use jobsd.Result.{Error, job_not_found, invalid, Result, ok, err, hang}
use jobsd.Result
use jobsd.Action.{Action, lift, ◌>>=◌, ◌>>◌}
use jobsd.Domain.{Time, Job, OnFinishConfig, schedule_kind_is_valid, policy_is_valid}
use jobsd.Domain.OnFinish.{
  normalize_on_finish_config, parse_on_finish_config_json, marshal_on_finish_config_json,
}
use jobsd.Env.{Env}
use jobsd.Sqlite.{JobRow, format_time, format_time_ptr, parse_time, parse_time_ptr, bool_to_int}
use jobsd.Sqlite.Engine.{Db, exec, query}
use jobsd.Sqlite.RunResults.{int_to_bool}
use jobsd.Sqlite.Jobs.{
  default_timezone, default_concurrency_policy, bad_last_status, has_name, has_id, first_job,
  insert_job, update_job, named_before, due_rows, ensure_rows_affected,
}

module _ (env : Env) where
  check_on_finish : Option OnFinishConfig → Result (Unit {0})
  check_on_finish none = ok tt
  check_on_finish (some config) =
      Result.◌>>=◌ (normalize_on_finish_config env config) (λ normalized. ok tt)

  unfoldable pub validate_job : Job → Result (Unit {0})
  unfolding check_on_finish
  validate_job job =
      if not (schedule_kind_is_valid job.schedule_kind)
      then err (invalid "invalid schedule kind")
      else if not (policy_is_valid (default_concurrency_policy job.concurrency_policy))
      then err (invalid "invalid concurrency policy")
      else if bad_last_status job.last_run_status
      then err (invalid "invalid last run status")
      else if not (is_none job.on_finish) && job.disable_inherited_on_finish
      then err (invalid "on_finish override cannot be combined with disable_inherited_on_finish")
      else check_on_finish job.on_finish

  -- jobInsertArgs and jobUpdateArgs
  unfoldable pub job_row : Job → Result JobRow
  job_row job = Result.◌>>=◌ (marshal_on_finish_config_json env job.on_finish) λ json. ok (record {
    id = job.id;
    name = job.name;
    command_line = job.command_line;
    schedule_kind = job.schedule_kind;
    schedule_expr = job.schedule_expr;
    timezone = default_timezone job.timezone;
    enabled = bool_to_int job.enabled;
    concurrency_policy = default_concurrency_policy job.concurrency_policy;
    on_finish_json = json;
    disable_inherited_on_finish = bool_to_int job.disable_inherited_on_finish;
    next_run_at = format_time_ptr job.next_run_at;
    last_run_at = format_time_ptr job.last_run_at;
    last_run_status = job.last_run_status;
    created_at = format_time job.created_at;
    updated_at = format_time job.updated_at;
  })

  unfoldable pub parse_on_finish_config_ptr : Option String → Result (Option OnFinishConfig)
  parse_on_finish_config_ptr none = ok none
  parse_on_finish_config_ptr (some raw) =
      Result.◌>>=◌ (parse_on_finish_config_json env raw) (λ config. ok (some config))

  -- scanJob
  unfoldable pub scan_job : JobRow → Result Job
  unfolding parse_on_finish_config_ptr
  scan_job r =
      if not (schedule_kind_is_valid r.schedule_kind)
      then err (invalid "invalid schedule kind")
      else if not (policy_is_valid r.concurrency_policy)
      then err (invalid "invalid concurrency policy")
      else (Result.◌>>=◌ (int_to_bool r.enabled) λ enabled.
          Result.◌>>=◌ (parse_on_finish_config_ptr r.on_finish_json) λ on_finish.
            Result.◌>>=◌ (int_to_bool r.disable_inherited_on_finish) λ disable.
              if bad_last_status r.last_run_status
              then err (invalid "invalid run status")
              else ok (record {
                id = r.id;
                name = r.name;
                command_line = r.command_line;
                schedule_kind = r.schedule_kind;
                schedule_expr = r.schedule_expr;
                timezone = r.timezone;
                enabled = enabled;
                concurrency_policy = r.concurrency_policy;
                on_finish = on_finish;
                disable_inherited_on_finish = disable;
                next_run_at = parse_time_ptr r.next_run_at;
                last_run_at = parse_time_ptr r.last_run_at;
                last_run_status = r.last_run_status;
                created_at = parse_time r.created_at;
                updated_at = parse_time r.updated_at;
              }))

  unfoldable pub scan_jobs : List JobRow → Result (List Job)
  scan_jobs [] = ok []
  scan_jobs (row ∷ rows) =
      Result.◌>>=◌ (scan_job row) λ job. Result.◌>>=◌ (scan_jobs rows) λ jobs. ok (job ∷ jobs)

  abbrev pub scan_first : List JobRow → Result Job
  scan_first rows = Result.◌>>=◌ (first_job rows) scan_job

  unfoldable pub get_by_name : String → Action Db Job
  get_by_name name = do rows ← query (λ t. select (has_name name) t.jobs); lift (scan_first rows)

  unfoldable pub get_by_id : ℕ → Action Db Job
  get_by_id id = do rows ← query (λ t. select (has_id id) t.jobs); lift (scan_first rows)

  unfoldable pub list_jobs : Action Db (List Job)
  list_jobs = do rows ← query (λ t. sort_by named_before t.jobs); lift (scan_jobs rows)

  unfoldable pub list_due : Time → Action Db (List Job)
  list_due now = do rows ← query (due_rows (format_time now)); lift (scan_jobs rows)

  unfoldable pub create : Job → Action Db Job
  unfolding get_by_id
  create job = do
    lift (validate_job job)
    row ← lift (job_row job)
    id ← exec (insert_job row)
    get_by_id id

  unfoldable pub update : Job → Action Db Job
  unfolding get_by_id
  update job = do
    lift (validate_job job)
    row ← lift (job_row job)
    affected ← exec (update_job row)
    ensure_rows_affected affected job_not_found
    get_by_id job.id
