-- ===== src/App/Print.antt =====
-- What the commands print: printJobList and its like in internal/app/job.go, run.go and scheduler.go, and the
-- texts of job_support.go and on_finish_support.go. An output is written by encoding/json, of which the
-- encoder at its type is a parameter, or as a table.
pub mod Runs
use jobsd.Common.{
  ℕ, Bool, true, false, ◌==◌, Option, none, some, List, [], ◌∷◌, String, ℤ, pos, negsuc,
  if◌then◌else◌, map,
}
use jobsd.Common.Text.{Runes, runes}
use jobsd.Result.{Error, Result, ok, err, hang}
use jobsd.Action.{Action, lift, ◌>>=◌}
use jobsd.Domain.{RunStatus, RunTriggerType, ConcurrencyPolicy, SchedulerStatus, OnFinishConfig}
use jobsd.Env.{Env, Codec}
use jobsd.Sqlite.{Stamp}
use jobsd.Output.{Format, Terminal, Field, parse_format, print_table, print_fields, print_json}
use jobsd.App.Support.{JobSummary, JobDetail, RunEnqueue, RunSummary}
use jobsd.App.Runs.{RunDetail}
use jobsd.App.Scheduler.{SchedulerOutput}
use jobsd.App.Instance.{SchedulerOnFinish}

-- Package time's text of a duration, the text of an error, and the layout of the tab writer.
pub record Formats : Type 0 where
  pub env : Env
  pub codec : Codec
  pub duration : ℤ → String
  pub error_text : Error → String
  pub align : Runes → Runes

-- deleteResultOutput
pub record DeleteResult : Type 0 where
  pub name : String
  pub deleted : Bool

-- the constants of internal/domain/types.go
abbrev pub run_status_text : RunStatus → String
run_status_text RunStatus.pending = "pending"
run_status_text RunStatus.running = "running"
run_status_text RunStatus.succeeded = "succeeded"
run_status_text RunStatus.failed = "failed"
run_status_text RunStatus.canceled = "canceled"
run_status_text (RunStatus.unknown s) = s

abbrev pub trigger_text : RunTriggerType → String
trigger_text RunTriggerType.schedule = "schedule"
trigger_text RunTriggerType.manual = "manual"
trigger_text (RunTriggerType.unknown s) = s

abbrev pub policy_text : ConcurrencyPolicy → String
policy_text ConcurrencyPolicy.unset = ""
policy_text ConcurrencyPolicy.forbid = "forbid"
policy_text ConcurrencyPolicy.queue = "queue"
policy_text ConcurrencyPolicy.replace = "replace"
policy_text (ConcurrencyPolicy.unknown s) = s

abbrev pub scheduler_status_text : SchedulerStatus → String
scheduler_status_text SchedulerStatus.running = "running"
scheduler_status_text SchedulerStatus.stale = "stale"
scheduler_status_text SchedulerStatus.stopped = "stopped"
scheduler_status_text (SchedulerStatus.unknown s) = s

abbrev pub bool_string : Bool → Runes
bool_string true = runes "true"
bool_string false = runes "false"

-- stringValue, of a text that a formatter makes
abbrev pub string_value : {A : Type 0} → (A → String) → Option A → Runes
string_value text none = []
string_value text (some a) = runes (text a)

abbrev pub is_zero_int : ℤ → Bool
is_zero_int (pos n) = n == 0
is_zero_int (negsuc n) = false

abbrev pub row_of : Field → List Runes
row_of f = f.name ∷ f.value ∷ []

-- commandOutputFormat, and the choice that every print function makes
abbrev pub in_format :
    {A : Type 0} → (A → Runes) → (A → Action Terminal Unit) → A → Format → Action Terminal Unit
in_format encode tabled value Format.json = print_json encode value
in_format encode tabled value Format.table = tabled value

abbrev pub print_as :
    {A : Type 0} → String → (A → Runes) → (A → Action Terminal Unit) → A → Action Terminal Unit
print_as flag encode tabled value = do
  format ← lift (parse_format flag)
  in_format encode tabled value format

abbrev pub field : String → Runes → Field
field name value = record { name = runes name; value = value }

module _ (f : Formats) where
  abbrev pub time_text : Stamp → String
  time_text = f.codec.write_time

  abbrev pub number_text : ℕ → Runes
  number_text n = runes (f.codec.itoa (pos n))

  -- intString
  abbrev pub int_string : ℤ → Runes
  int_string n = if is_zero_int n then [] else runes (f.codec.itoa n)

  -- formatOnFinishConfigValue: json.Marshal takes every configuration
  abbrev pub on_finish_text : Option OnFinishConfig → Runes
  on_finish_text = string_value f.env.marshal

  abbrev pub summary_row : JobSummary → List Runes
  summary_row item =
      runes item.name
      ∷ bool_string item.enabled
      ∷ item.schedule
      ∷ runes item.timezone
      ∷ runes (policy_text item.concurrency_policy)
      ∷ string_value time_text item.next_run_at
      ∷ string_value time_text item.last_run_at
      ∷ string_value run_status_text item.last_run_status
      ∷ []

  unfoldable pub print_job_list :
      String → (List JobSummary → Runes) → List JobSummary → Action Terminal Unit
  unfolding parse_format print_table
  print_job_list flag encode = print_as flag encode λ items.
      print_table f.align Format.table
        (map runes (
          "NAME" ∷ "ENABLED" ∷ "SCHEDULE" ∷ "TIMEZONE" ∷ "POLICY" ∷ "NEXT_RUN_AT" ∷ "LAST_RUN_AT"
          ∷ "LAST_RUN_STATUS" ∷ []))
        (map summary_row items)

  abbrev pub job_fields : JobDetail → List Field
  job_fields item =
      field "ID" (number_text item.id)
      ∷ field "NAME" (runes item.name)
      ∷ field "COMMAND" (runes item.command_line)
      ∷ field "SCHEDULE" item.schedule
      ∷ field "TIMEZONE" (runes item.timezone)
      ∷ field "ENABLED" (bool_string item.enabled)
      ∷ field "CONCURRENCY_POLICY" (runes (policy_text item.concurrency_policy))
      ∷ field "ON_FINISH" (on_finish_text item.on_finish)
      ∷ field "DISABLE_INHERITED_ON_FINISH" (bool_string item.disable_inherited_on_finish)
      ∷ field "NEXT_RUN_AT" (string_value time_text item.next_run_at)
      ∷ field "LAST_RUN_AT" (string_value time_text item.last_run_at)
      ∷ field "LAST_RUN_STATUS" (string_value run_status_text item.last_run_status)
      ∷ field "CREATED_AT" (runes (time_text item.created_at))
      ∷ field "UPDATED_AT" (runes (time_text item.updated_at))
      ∷ []

  unfoldable pub print_job_detail : String → (JobDetail → Runes) → JobDetail → Action Terminal Unit
  unfolding parse_format print_fields
  print_job_detail flag encode =
      print_as flag encode λ item. print_fields f.align Format.table (job_fields item)

  unfoldable pub print_delete_result :
      String → (DeleteResult → Runes) → DeleteResult → Action Terminal Unit
  unfolding parse_format print_fields
  print_delete_result flag encode = print_as flag encode λ item.
      print_fields f.align Format.table
        (field "NAME" (runes item.name) ∷ field "DELETED" (bool_string item.deleted) ∷ [])

  unfoldable pub print_run_enqueue :
      String → (RunEnqueue → Runes) → RunEnqueue → Action Terminal Unit
  unfolding parse_format print_fields
  print_run_enqueue flag encode = print_as flag encode λ item. print_fields f.align Format.table (
      field "RUN_ID" (number_text item.run_id)
      ∷ field "JOB" (runes item.job)
      ∷ field "STATUS" (runes (run_status_text item.status))
      ∷ field "TRIGGER_TYPE" (runes (trigger_text item.trigger_type))
      ∷ field "QUEUED_AT" (runes (time_text item.queued_at))
      ∷ [])

  unfoldable pub print_scheduler_output :
      String → (SchedulerOutput → Runes) → SchedulerOutput → Action Terminal Unit
  unfolding parse_format print_table
  print_scheduler_output flag encode = print_as flag encode λ value.
      print_table f.align Format.table
        (map runes (
          "INSTANCE" ∷ "STATUS" ∷ "PID" ∷ "PORT" ∷ "DB_PATH" ∷ "STARTED_AT" ∷ "VERSION" ∷ "REASON"
          ∷ []))
        ((runes value.instance_name
            ∷ runes (scheduler_status_text value.status)
            ∷ int_string value.pid
            ∷ int_string value.port
            ∷ runes value.db_path
            ∷ string_value time_text value.started_at
            ∷ runes value.version
            ∷ string_value f.error_text value.reason
            ∷ [])
          ∷ [])

  unfoldable pub print_scheduler_on_finish :
      String → (SchedulerOnFinish → Runes) → SchedulerOnFinish → Action Terminal Unit
  unfolding parse_format print_fields
  print_scheduler_on_finish flag encode = print_as flag encode λ value.
      print_fields f.align Format.table (
        field "INSTANCE" (runes value.instance_name)
        ∷ field "ON_FINISH" (on_finish_text value.on_finish)
        ∷ [])
