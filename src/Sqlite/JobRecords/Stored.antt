-- ===== src/Sqlite/JobRecords/Stored.antt =====
-- What a job is read back as after it has been written to its row.
use jobsd.Common.{Option, none, some, String, ◌≡◌, refl, arith}
use jobsd.Result.{ok}
use jobsd.Domain.{Job, OnFinishConfig, Time}
use jobsd.Domain.OnFinish.Normal.{HookReadsBack, ParsesTo, marshal-ParsesTo}
use jobsd.Env.{Env}
use jobsd.Sqlite.{JobRow, format_time, format_time_ptr, parse_time, parse_time_ptr}
use jobsd.Sqlite.Jobs.{default_timezone, default_concurrency_policy}
use jobsd.Sqlite.JobRecords.{validate_job, job_row, scan_job, parse_on_finish_config_ptr}

abbrev pub seconds_of : Option Time → Option Time
seconds_of t = parse_time_ptr (format_time_ptr t)

-- a job with its defaults filled in, its hook in normal form and its times to the second
abbrev pub stored_form : Job → Option OnFinishConfig → Job
stored_form job hook = record job {
  timezone = default_timezone job.timezone;
  concurrency_policy = default_concurrency_policy job.concurrency_policy;
  on_finish = hook;
  next_run_at = seconds_of job.next_run_at;
  last_run_at = seconds_of job.last_run_at;
  created_at = parse_time (format_time job.created_at);
  updated_at = parse_time (format_time job.updated_at);
}

module _ (env : Env) where
  stored_text :
      (json : Option String) (n : Option OnFinishConfig)
      → ParsesTo env json n
      → parse_on_finish_config_ptr env json ≡ ok n
  unfolding parse_on_finish_config_ptr
  stored_text none none h = refl
  stored_text none (some d) h = absurd h
  stored_text (some text) none h = absurd h
  stored_text (some text) (some d) h = rw h refl

  -- A job that is valid and is written to a row reads back as it was, its defaults filled in, its
  -- times to the second, and its hook in the normal form, if encoding/json reads that back.
  pub scan_job-job_row :
      (job : Job) (hook : Option OnFinishConfig) {row : JobRow}
      → validate_job env job ≡ ok tt
      → HookReadsBack env job.on_finish hook
      → job_row env job ≡ ok row
      → scan_job env row ≡ ok (stored_form job hook)
  unfolding validate_job job_row scan_job
  scan_job-job_row job hook {row} valid back written =
      let (json, marshaled, parses) = marshal-ParsesTo env job.on_finish hook back in
      let read = stored_text json hook parses in ground arith
