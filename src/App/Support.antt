-- ===== src/App/Support.antt =====
-- internal/app/job_support.go and on_finish_support.go: what the commands print, and what they share.
pub mod Preview
use Prim.Native.String.{◌++◌ as append_text}
use text.Mathlib.Text.{◌==◌ as str_eq}
use jobsd.Common.{
  ℕ, suc, leb, ltb, ◌==◌, ◌-◌, Bool, true, false, not, ◌||◌, Option, none, some, List, [], ◌∷◌,
  ◌++◌, String, ℤ, pos, negsuc, if◌then◌else◌, is_none, length, take,
}
use jobsd.Common.Text.{Runes}
use jobsd.Result.{invalid, Result, ok, err, hang, ◌>>=◌}
use jobsd.Domain.{
  Time, Schedule, ScheduleKind, Job, Run, RunOutput, RunStatus, RunTriggerType, ConcurrencyPolicy,
  OnFinishConfig,
}
use jobsd.Domain.OnFinish.{parse_on_finish_config_json, marshal_on_finish_config_json}
use jobsd.Env.{Env, Location}
use jobsd.Schedule.Next.{next, local}
use jobsd.Sqlite.{Stamp, format_time, format_time_ptr}

abbrev pub normalized_timezone : String → String
normalized_timezone timezone = if str_eq timezone "" then "Local" else timezone

-- `len(escaped) <= max` and what follows it: 46 is the code of a dot
abbrev pub cut_preview : ℕ → List ℕ → List ℕ
cut_preview max escaped =
    if max == 0 || leb (length escaped) max
    then escaped
    else take max escaped ++ (46 ∷ 46 ∷ 46 ∷ [])

-- the replacer: 13 and 10 are carriage return and line feed, 92 is a backslash
unfoldable pub escape : List ℕ → List ℕ
escape [] = []
escape (c ∷ text) =
    let rest = escape text in
    if c == 13 then 92 ∷ 114 ∷ rest else if c == 10 then 92 ∷ 110 ∷ rest else c ∷ rest

unfoldable pub preview_output : List ℕ → ℕ → List ℕ
unfolding escape
preview_output text max = cut_preview max (escape text)

-- finishedAt.Sub(*startedAt), in nanoseconds; its text is left to package time
unfoldable pub format_duration : Option Time → Option Time → Option ℤ
format_duration (some started) (some finished) =
    some
      (if leb started finished then pos (finished - started) else negsuc (started - finished - 1))
format_duration _ _ = none

pub record JobSummary : Type 0 where
  pub name : String
  pub enabled : Bool
  pub schedule : Runes
  pub timezone : String
  pub concurrency_policy : ConcurrencyPolicy
  pub next_run_at : Option Stamp
  pub last_run_at : Option Stamp
  pub last_run_status : Option RunStatus

pub record JobDetail : Type 0 where
  pub id : ℕ
  pub name : String
  pub command_line : String
  pub schedule : Runes
  pub timezone : String
  pub enabled : Bool
  pub concurrency_policy : ConcurrencyPolicy
  pub on_finish : Option OnFinishConfig
  pub disable_inherited_on_finish : Bool
  pub next_run_at : Option Stamp
  pub last_run_at : Option Stamp
  pub last_run_status : Option RunStatus
  pub created_at : Stamp
  pub updated_at : Stamp

unfoldable pub job_summary_from_domain : Job → JobSummary
job_summary_from_domain job = record {
  name = job.name;
  enabled = job.enabled;
  schedule = job.schedule_expr;
  timezone = normalized_timezone job.timezone;
  concurrency_policy = job.concurrency_policy;
  next_run_at = format_time_ptr job.next_run_at;
  last_run_at = format_time_ptr job.last_run_at;
  last_run_status = job.last_run_status;
}

unfoldable pub job_detail_from_domain : Job → JobDetail
job_detail_from_domain job = record {
  id = job.id;
  name = job.name;
  command_line = job.command_line;
  schedule = job.schedule_expr;
  timezone = normalized_timezone job.timezone;
  enabled = job.enabled;
  concurrency_policy = job.concurrency_policy;
  on_finish = job.on_finish;
  disable_inherited_on_finish = job.disable_inherited_on_finish;
  next_run_at = format_time_ptr job.next_run_at;
  last_run_at = format_time_ptr job.last_run_at;
  last_run_status = job.last_run_status;
  created_at = format_time job.created_at;
  updated_at = format_time job.updated_at;
}

pub record RunEnqueue : Type 0 where
  pub run_id : ℕ
  pub job : String
  pub status : RunStatus
  pub trigger_type : RunTriggerType
  pub queued_at : Stamp

unfoldable pub run_enqueue_from_domain : String → Run → RunEnqueue
run_enqueue_from_domain job_name run = record {
  run_id = run.id;
  job = job_name;
  status = run.status;
  trigger_type = run.trigger_type;
  queued_at = format_time run.queued_at;
}

pub record RunSummary : Type 0 where
  pub id : ℕ
  pub job : String
  pub trigger : RunTriggerType
  pub status : RunStatus
  pub queued_at : Stamp
  pub started_at : Option Stamp
  pub finished_at : Option Stamp
  pub duration : Option ℤ

unfoldable pub run_summary_from_domain : Run → RunSummary
unfolding format_duration
run_summary_from_domain run = record {
  id = run.id;
  job = run.job_name;
  trigger = run.trigger_type;
  status = run.status;
  queued_at = format_time run.queued_at;
  started_at = format_time_ptr run.started_at;
  finished_at = format_time_ptr run.finished_at;
  duration = format_duration run.started_at run.finished_at;
}

module _ (env : Env) where
  unfoldable pub load_location : String → Result Location
  load_location timezone =
      if str_eq (normalized_timezone timezone) "Local"
      then ok local
      else elim (env.load_location (normalized_timezone timezone)) [
        | none ↦ err (invalid "load timezone")
        | some location ↦ ok location
      ]

  unfoldable pub compute_next_run : Schedule → String → Time → Result Time
  compute_next_run spec timezone ref =
      load_location timezone >>= λ location. next env spec ref (some location)

  unfoldable pub parse_optional_on_finish_config : String → Result (Option OnFinishConfig)
  parse_optional_on_finish_config raw =
      if str_eq raw ""
      then ok none
      else (parse_on_finish_config_json env raw >>= λ config. ok (some config))

  same_json : Result (Option String) → Result (Option String) → Bool
  same_json (ok none) (ok none) = true
  same_json (ok (some a)) (ok (some b)) = str_eq a b
  same_json _ _ = false

  unfoldable pub on_finish_configs_equal : Option OnFinishConfig → Option OnFinishConfig → Bool
  unfolding same_json
  on_finish_configs_equal left right =
      same_json (marshal_on_finish_config_json env left) (marshal_on_finish_config_json env right)
