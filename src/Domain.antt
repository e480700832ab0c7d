-- ===== src/Domain.antt =====
-- internal/domain: the types that the packages share. A Go string type is a data type of its
-- constants, and `unknown` is any other text, the empty one included. An int64 id and an int are
-- numbers of unbounded size. A time is the nanoseconds since January 1 of year 1, UTC, Go's zero
-- time; a pointer is an `Option`.

pub mod OnFinish
use jobsd.Common.{ℕ, ◌==◌, Bool, true, false, Option, String, List, ℤ}
use jobsd.Common.Text.{Runes}

abbrev pub Time : Type 0
Time = ℕ

-- time.Time.IsZero
abbrev pub is_zero_time : Time → Bool
is_zero_time t = t == 0

pub data ScheduleKind : Type 0 where
  interval cron once : ScheduleKind
  unknown : String → ScheduleKind

pub data RunTriggerType : Type 0 where
  schedule manual : RunTriggerType
  unknown : String → RunTriggerType

pub data RunStatus : Type 0 where
  pending running succeeded failed canceled : RunStatus
  unknown : String → RunStatus

-- `unset` is the empty text.
pub data ConcurrencyPolicy : Type 0 where
  unset forbid queue replace : ConcurrencyPolicy
  unknown : String → ConcurrencyPolicy

pub data SchedulerStatus : Type 0 where
  running stale stopped : SchedulerStatus
  unknown : String → SchedulerStatus

pub data OnFinishSinkType : Type 0 where
  command http : OnFinishSinkType
  unknown : String → OnFinishSinkType

pub data HookDeliveryStatus : Type 0 where
  succeeded failed timed_out : HookDeliveryStatus
  unknown : String → HookDeliveryStatus

-- The `IsValid` methods.
abbrev pub schedule_kind_is_valid : ScheduleKind → Bool
schedule_kind_is_valid (ScheduleKind.unknown s) = false
schedule_kind_is_valid _ = true

abbrev pub trigger_type_is_valid : RunTriggerType → Bool
trigger_type_is_valid (RunTriggerType.unknown s) = false
trigger_type_is_valid _ = true

abbrev pub run_status_is_valid : RunStatus → Bool
run_status_is_valid (RunStatus.unknown s) = false
run_status_is_valid _ = true

abbrev pub policy_is_valid : ConcurrencyPolicy → Bool
policy_is_valid ConcurrencyPolicy.forbid = true
policy_is_valid ConcurrencyPolicy.queue = true
policy_is_valid ConcurrencyPolicy.replace = true
policy_is_valid _ = false

abbrev pub sink_type_is_valid : OnFinishSinkType → Bool
sink_type_is_valid (OnFinishSinkType.unknown s) = false
sink_type_is_valid _ = true

abbrev pub delivery_status_is_valid : HookDeliveryStatus → Bool
delivery_status_is_valid (HookDeliveryStatus.unknown s) = false
delivery_status_is_valid _ = true

abbrev pub scheduler_status_is_valid : SchedulerStatus → Bool
scheduler_status_is_valid (SchedulerStatus.unknown s) = false
scheduler_status_is_valid _ = true

-- The tests that the code makes of a run's status.
abbrev pub is_pending : RunStatus → Bool
is_pending RunStatus.pending = true
is_pending _ = false

abbrev pub is_running : RunStatus → Bool
is_running RunStatus.running = true
is_running _ = false

pub record CommandSinkConfig : Type 0 where
  pub program : String
  pub args : List String

pub record HttpSinkConfig : Type 0 where
  pub url : String
  pub headers : List (String × String)

pub record OnFinishConfig : Type 0 where
  pub sink_type : OnFinishSinkType
  pub timeout_ms : ℤ
  pub retry_count : ℤ
  pub retry_backoff_ms : ℤ
  pub command_sink : Option CommandSinkConfig
  pub http_sink : Option HttpSinkConfig

pub record Schedule : Type 0 where
  pub kind : ScheduleKind
  pub expr : Runes

pub record Job : Type 0 where
  pub id : ℕ
  pub name : String
  pub command_line : String
  pub schedule_kind : ScheduleKind
  pub schedule_expr : Runes
  pub timezone : String
  pub enabled : Bool
  pub concurrency_policy : ConcurrencyPolicy
  pub on_finish : Option OnFinishConfig
  pub disable_inherited_on_finish : Bool
  pub next_run_at : Option Time
  pub last_run_at : Option Time
  pub last_run_status : Option RunStatus
  pub created_at : Time
  pub updated_at : Time

pub record RunOutput : Type 0 where
  pub stdout : List ℕ
  pub stderr : List ℕ
  pub stdout_truncated : Bool
  pub stderr_truncated : Bool
  pub updated_at : Time

pub record Run : Type 0 where
  pub id : ℕ
  pub job_id : ℕ
  pub job_name : String
  pub trigger_type : RunTriggerType
  pub status : RunStatus
  pub scheduled_for : Option Time
  pub queued_at : Time
  pub started_at : Option Time
  pub finished_at : Option Time
  pub exit_code : Option ℤ
  pub error_message : Option String
  pub runner_id : Option String
  pub output : Option RunOutput

pub record InstanceMetadata : Type 0 where
  pub instance_name : String
  pub created_at : Time
  pub scheduler_port : ℤ
  pub on_finish : Option OnFinishConfig

pub record RunHookDelivery : Type 0 where
  pub id : ℕ
  pub run_id : ℕ
  pub event : String
  pub sink_type : OnFinishSinkType
  pub attempt : ℕ
  pub status : HookDeliveryStatus
  pub http_status_code : Option ℤ
  pub error_message : Option String
  pub started_at : Time
  pub finished_at : Time

pub record SchedulerState : Type 0 where
  pub instance_name : String
  pub pid : ℤ
  pub port : ℤ
  pub token : String
  pub db_path : String
  pub started_at : Time
  pub version : String
