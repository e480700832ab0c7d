-- ===== src/App/Jobs.antt =====
-- internal/app/job.go: the commands on jobs, but for update. `now` and `later` are the first and the
-- second reading of the clock.
use text.Mathlib.Text.{◌==◌ as str_eq}
use jobsd.Common.{
  Bool, true, false, not, ◌&&◌, Option, none, some, List, String, if◌then◌else◌, map,
}
use jobsd.Common.Text.{Runes, is_empty, trim_space, is_blank}
use jobsd.Result.{Error, job_not_found, run_conflict, invalid, Result, ok, err, hang}
use jobsd.Result
use jobsd.Action.{Action, pure, lift, ◌>>=◌, ◌>>◌, refuse_if}
use jobsd.Domain.{Time, Schedule, Job, ConcurrencyPolicy, OnFinishConfig, policy_is_valid}
use jobsd.Env.{Env}
use jobsd.Schedule.Parser.{parse}
use jobsd.Sqlite.Engine.{Db}
use jobsd.Sqlite.Jobs.{delete_by_name}
use jobsd.Sqlite.JobRecords.{create, update, get_by_name, list_jobs}
use jobsd.Daemon.Policy.{enqueue_manual_with_policy}
use jobsd.App.Support.{
  JobSummary, JobDetail, RunEnqueue, normalized_timezone, load_location, compute_next_run,
  parse_optional_on_finish_config, job_summary_from_domain, job_detail_from_domain,
  run_enqueue_from_domain,
}

-- validateRequiredValue and validateChangedValue
abbrev pub validate_value : String → Action Db Unit
validate_value value = refuse_if (is_blank value) (invalid "value must not be empty")

abbrev pub validate_text : Runes → Action Db Unit
validate_text value = refuse_if (is_empty (trim_space value)) (invalid "value must not be empty")

abbrev pub parse_concurrency_policy : ConcurrencyPolicy → Result ConcurrencyPolicy
parse_concurrency_policy policy =
    if policy_is_valid policy then ok policy else err (invalid "invalid concurrency policy")

-- jobLookupError: the text of the answer takes the place of the sentinel
abbrev pub lookup_error : Error → Error
lookup_error Error.job_not_found = invalid "job not found"
lookup_error e = e

-- errors.Is(err, daemon.ErrRunConflict)
abbrev pub conflict_error : Error → Error
conflict_error Error.run_conflict = invalid "job already has a pending or running run"
conflict_error e = e

abbrev pub with_error {ℓ} : {A : Type ℓ} → (Error → Error) → Result A → Result A
with_error f (ok a) = ok a
with_error f (err e) = err (f e)
with_error f hang = hang

abbrev pub or_error : {A : Type 0} → (Error → Error) → Action Db A → Action Db A
or_error f m db = (with_error f (m db).0, (m db).1)

-- the flags of `job add`
pub record AddFlags : Type 0 where
  pub name : String
  pub schedule : Runes
  pub command_line : String
  pub timezone : String
  pub disabled : Bool
  pub concurrency_policy : ConcurrencyPolicy
  pub on_finish_config : String
  pub disable_inherited : Bool

unfoldable pub delete_command : String → Action Db Unit
delete_command name = do validate_value name; or_error lookup_error (delete_by_name name)

module _ (env : Env) where
  -- `if enabled { nextRunAt, err = computeNextRun(…) }`
  abbrev pub next_if_enabled : Bool → Schedule → String → Time → Result (Option Time)
  next_if_enabled false spec timezone now = ok none
  next_if_enabled true spec timezone now =
      Result.◌>>=◌ (compute_next_run env spec timezone now) λ at. ok (some at)

  -- the job that `job add` creates
  abbrev pub new_job :
      AddFlags → Schedule → ConcurrencyPolicy → Option OnFinishConfig → Option Time → Time → Job
  new_job flags parsed policy on_finish next_run_at now = record {
    id = 0;
    name = flags.name;
    command_line = flags.command_line;
    schedule_kind = parsed.kind;
    schedule_expr = parsed.expr;
    timezone = normalized_timezone flags.timezone;
    enabled = not flags.disabled;
    concurrency_policy = policy;
    on_finish = on_finish;
    disable_inherited_on_finish = flags.disable_inherited;
    next_run_at = next_run_at;
    last_run_at = none;
    last_run_status = none;
    created_at = now;
    updated_at = now;
  }

  unfoldable pub add_job : AddFlags → Time → Action Db JobDetail
  add_job flags now = do
    validate_value flags.name
    validate_text flags.schedule
    validate_value flags.command_line
    parsed ← lift (parse env flags.schedule)
    location ← lift (load_location env (normalized_timezone flags.timezone))
    policy ← lift (parse_concurrency_policy flags.concurrency_policy)
    refuse_if (not (str_eq flags.on_finish_config "") && flags.disable_inherited)
        (invalid "the two flags cannot be used together")
    on_finish ← lift (parse_optional_on_finish_config env flags.on_finish_config)
    next_run_at ←
        lift (next_if_enabled (not flags.disabled) parsed (normalized_timezone flags.timezone) now)
    job ← create env (new_job flags parsed policy on_finish next_run_at now)
    pure (job_detail_from_domain job)

  unfoldable pub list_command : Action Db (List JobSummary)
  list_command = do jobs ← list_jobs env; pure (map job_summary_from_domain jobs)

  -- GetByName, with jobLookupError
  abbrev pub find_job : String → Action Db Job
  find_job name = or_error lookup_error (get_by_name env name)

  unfoldable pub get_command : String → Action Db JobDetail
  get_command name = do validate_value name; job ← find_job name; pure (job_detail_from_domain job)

  -- db.Jobs.Update and the printing of what it returns
  abbrev pub store_and_print : Job → Action Db JobDetail
  store_and_print job = do
    stored ← or_error lookup_error (update env job)
    pure (job_detail_from_domain stored)

  unfoldable pub pause_job : String → Time → Action Db JobDetail
  pause_job name now = do
    validate_value name
    job ← find_job name
    if not job.enabled
        then pure (job_detail_from_domain job)
        else store_and_print (record job { enabled = false; next_run_at = none; updated_at = now })

  unfoldable pub resume_job : String → Time → Time → Action Db JobDetail
  resume_job name now later = do
    validate_value name
    job ← find_job name
    if job.enabled then pure (job_detail_from_domain job) else do
      at ← lift (
          compute_next_run env (record { kind = job.schedule_kind; expr = job.schedule_expr })
            job.timezone now)
      store_and_print (record job { enabled = true; next_run_at = some at; updated_at = later })

  unfoldable pub run_command : String → Time → Action Db RunEnqueue
  run_command name now = do
    validate_value name
    job ← find_job name
    run ← or_error conflict_error (enqueue_manual_with_policy job now)
    pure (run_enqueue_from_domain job.name run)
