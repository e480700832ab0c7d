-- ===== src/Examples.antt =====
-- Test data: one job, its runs, and an environment whose functions are constants.
pub mod Stores
pub mod Scheduling
pub mod Hooks
pub mod Commands
pub mod Instances
pub mod Serving
pub mod Opening
pub mod Endings
use jobsd.Common.{ℕ, ◌+◌, Bool, true, false, Option, none, some, List, [], ◌∷◌, String, ℤ, pos}
use jobsd.Common.Text.{Runes, runes}
use jobsd.Domain.{
  Time, Job, Run, RunStatus, RunTriggerType, ScheduleKind, ConcurrencyPolicy, OnFinishConfig,
  OnFinishSinkType, CommandSinkConfig, HttpSinkConfig, RunOutput,
}
use jobsd.Env.{Env, Codec, Location}
use jobsd.Sqlite.{JobRow, RunRow, Tables}
use jobsd.Sqlite.Engine.{Db}
use jobsd.Sqlite.RunResults.{FinishRunParams}

-- a command hook with every setting given
abbrev pub normal_hook : OnFinishConfig
normal_hook = record {
  sink_type = OnFinishSinkType.command;
  timeout_ms = pos 5000;
  retry_count = pos 2;
  retry_backoff_ms = pos 1000;
  command_sink = some (record { program = "notify"; args = [] });
  http_sink = none;
}

-- the same with settings that are left to their defaults
abbrev pub short_hook : OnFinishConfig
short_hook = record normal_hook { timeout_ms = pos 0; retry_backoff_ms = pos 0 }

-- every text is a duration of a minute, and a cron expression that fires a nanosecond later
abbrev pub minute_env : Env
minute_env = record {
  parse_url = λ text. some ("http", "localhost");
  marshal = λ config. "{}";
  unmarshal = λ text. some normal_hook;
  parse_duration = λ text. some (pos 60_000_000_000);
  parse_cron = λ text. true;
  cron_next = λ text zone ref. ref + 1;
  load_location = λ zone. some zone;
}

-- the same where no cron expression ever fires
abbrev pub never_env : Env
never_env = record minute_env { cron_next = λ text zone ref. 0 }

-- every number is written as 8080, and every time as the first minute
abbrev pub plain_codec : Codec
plain_codec = record {
  itoa = λ n. "8080";
  atoi = λ text. some (pos 8080);
  write_time = λ seconds. "0001-01-01T00:01:00Z";
  read_time = λ text. some 60_000_000_000;
}

abbrev pub backup_row : JobRow
backup_row = record {
  id = 1;
  name = "backup";
  command_line = "make backup";
  schedule_kind = ScheduleKind.interval;
  schedule_expr = runes "every 1m";
  timezone = "Local";
  enabled = 1;
  concurrency_policy = ConcurrencyPolicy.forbid;
  on_finish_json = none;
  disable_inherited_on_finish = 0;
  next_run_at = some 120;
  last_run_at = none;
  last_run_status = none;
  created_at = 60;
  updated_at = 60;
}

abbrev pub backup_job : Job
backup_job = record {
  id = 1;
  name = "backup";
  command_line = "make backup";
  schedule_kind = ScheduleKind.interval;
  schedule_expr = runes "every 1m";
  timezone = "Local";
  enabled = true;
  concurrency_policy = ConcurrencyPolicy.forbid;
  on_finish = some normal_hook;
  disable_inherited_on_finish = false;
  next_run_at = some 120_000_000_000;
  last_run_at = none;
  last_run_status = none;
  created_at = 60_000_000_000;
  updated_at = 60_000_000_000;
}

abbrev pub waiting_row : RunRow
waiting_row = record {
  id = 1;
  job_id = 1;
  trigger_type = RunTriggerType.manual;
  status = RunStatus.pending;
  scheduled_for = none;
  queued_at = 100;
  started_at = none;
  finished_at = none;
  exit_code = none;
  error_message = none;
  runner_id = none;
}

abbrev pub waiting_run : Run
waiting_run = record {
  id = 1;
  job_id = 1;
  job_name = "backup";
  trigger_type = RunTriggerType.manual;
  status = RunStatus.pending;
  scheduled_for = none;
  queued_at = 100_000_000_000;
  started_at = none;
  finished_at = none;
  exit_code = none;
  error_message = none;
  runner_id = none;
  output = none;
}

abbrev pub small_tables : Tables
small_tables = record {
  jobs = backup_row ∷ [];
  runs = waiting_row ∷ [];
  outputs = [];
  deliveries = [];
  metadata = [];
  schema_migrations = none;
  job_seq = 1;
  run_seq = 1;
  delivery_seq = 0;
}

-- an engine that refuses nothing
abbrev pub small_db : Db
small_db = record { tables = small_tables; refuses = λ n. false; statements = 0 }

-- one that refuses everything
abbrev pub full_disk : Db
full_disk = record small_db { refuses = λ n. true }

abbrev pub finish_well : FinishRunParams
finish_well = record {
  run_id = 1;
  status = RunStatus.succeeded;
  finished_at = 130_000_000_000;
  exit_code = some (pos 0);
  error_message = none;
  output = some (record {
    stdout = 111 ∷ 107 ∷ [];
    stderr = [];
    stdout_truncated = false;
    stderr_truncated = false;
    updated_at = 130_000_000_000;
  });
}
