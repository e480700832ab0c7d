-- ===== src/Sqlite.antt =====
-- internal/sqlite and migrations/sqlite: the tables, a row for each SQL row. A time is stored as
-- RFC 3339 text in UTC, which has no fraction of a second; a `Stamp` is the seconds of that text,
-- and the order of texts is the order of stamps.
pub mod Engine
pub mod Runs
pub mod RunResults
pub mod Rows
pub mod Jobs
pub mod JobRecords
pub mod Deliveries
pub mod Metadata
pub mod Migrate
pub mod Operations
pub mod Sound
use jobsd.Common.{ℕ, ◌*◌, ◌/◌, String, Option, List, ℤ, Bool, true, false, none, some}
use jobsd.Common.Text.{Runes}
use jobsd.Domain.{
  Time, ScheduleKind, RunTriggerType, RunStatus, ConcurrencyPolicy, OnFinishSinkType,
  HookDeliveryStatus,
}

abbrev pub Stamp : Type 0
Stamp = ℕ

abbrev pub second : ℕ
second = 1_000_000_000

-- formatTime and parseTime of jobs_store.go
abbrev pub format_time : Time → Stamp
format_time t = t / second

abbrev pub parse_time : Stamp → Time
parse_time s = s * second

abbrev pub format_time_ptr : Option Time → Option Stamp
format_time_ptr none = none
format_time_ptr (some t) = some (format_time t)

abbrev pub parse_time_ptr : Option Stamp → Option Time
parse_time_ptr none = none
parse_time_ptr (some s) = some (parse_time s)

abbrev pub bool_to_int : Bool → ℕ
bool_to_int true = 1
bool_to_int false = 0

pub record JobRow : Type 0 where
  pub id : ℕ
  pub name : String
  pub command_line : String
  pub schedule_kind : ScheduleKind
  pub schedule_expr : Runes
  pub timezone : String
  pub enabled : ℕ
  pub concurrency_policy : ConcurrencyPolicy
  pub on_finish_json : Option String
  pub disable_inherited_on_finish : ℕ
  pub next_run_at : Option Stamp
  pub last_run_at : Option Stamp
  pub last_run_status : Option RunStatus
  pub created_at : Stamp
  pub updated_at : Stamp

pub record RunRow : Type 0 where
  pub id : ℕ
  pub job_id : ℕ
  pub trigger_type : RunTriggerType
  pub status : RunStatus
  pub scheduled_for : Option Stamp
  pub queued_at : Stamp
  pub started_at : Option Stamp
  pub finished_at : Option Stamp
  pub exit_code : Option ℤ
  pub error_message : Option String
  pub runner_id : Option String

pub record OutputRow : Type 0 where
  pub run_id : ℕ
  pub stdout_text : List ℕ
  pub stderr_text : List ℕ
  pub stdout_truncated : ℕ
  pub stderr_truncated : ℕ
  pub updated_at : Stamp

pub record DeliveryRow : Type 0 where
  pub id : ℕ
  pub run_id : ℕ
  pub event : String
  pub sink_type : OnFinishSinkType
  pub attempt : ℕ
  pub status : HookDeliveryStatus
  pub http_status_code : Option ℤ
  pub error_message : Option String
  pub started_at : Stamp
  pub finished_at : Stamp

-- The keys of instance_metadata; `unknown` is any other text.
pub data MetadataKey : Type 0 where
  instance_name created_at scheduler_port on_finish_json : MetadataKey
  unknown : String → MetadataKey

pub record MetadataRow : Type 0 where
  pub key : MetadataKey
  pub value : String
  pub updated_at : Stamp

pub record MigrationRow : Type 0 where
  pub version : ℤ
  pub applied_at : Stamp

-- The tables, and the ids that AUTOINCREMENT has given out so far.
pub record Tables : Type 0 where
  pub jobs : List JobRow
  pub runs : List RunRow
  pub outputs : List OutputRow
  pub deliveries : List DeliveryRow
  pub metadata : List MetadataRow
  pub job_seq : ℕ
  pub run_seq : ℕ
  pub delivery_seq : ℕ
  -- none if the table is not there
  pub schema_migrations : Option (List MigrationRow)
