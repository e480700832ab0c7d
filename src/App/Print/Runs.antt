-- ===== src/App/Print/Runs.antt =====
-- internal/app/run.go: how runs are printed.
use jobsd.Common.{List, [], ◌∷◌, String, map}
use jobsd.Common.Text.{Runes, runes}
use jobsd.Action.{Action}
use jobsd.Output.{Format, Terminal, Field, parse_format, print_table, print_fields}
use jobsd.App.Support.{RunSummary}
use jobsd.App.Runs.{RunDetail}
use jobsd.App.Print.{
  Formats, run_status_text, trigger_text, bool_string, string_value, time_text, number_text, field,
  print_as,
}

module _ (f : Formats) where
  abbrev pub run_row : RunSummary → List Runes
  run_row item =
      number_text f item.id
      ∷ runes item.job
      ∷ runes (trigger_text item.trigger)
      ∷ runes (run_status_text item.status)
      ∷ runes (time_text f item.queued_at)
      ∷ string_value (time_text f) item.started_at
      ∷ string_value (time_text f) item.finished_at
      ∷ string_value f.duration item.duration
      ∷ []

  unfoldable pub print_run_list :
      String → (List RunSummary → Runes) → List RunSummary → Action Terminal Unit
  unfolding parse_format print_table
  print_run_list flag encode = print_as flag encode λ items.
      print_table f.align Format.table
        (map runes (
          "ID" ∷ "JOB" ∷ "TRIGGER" ∷ "STATUS" ∷ "QUEUED_AT" ∷ "STARTED_AT" ∷ "FINISHED_AT"
          ∷ "DURATION" ∷ []))
        (map run_row items)

  abbrev pub run_fields : RunDetail → List Field
  run_fields item =
      field "ID" (number_text f item.id)
      ∷ field "JOB" (runes item.job)
      ∷ field "JOB_ID" (number_text f item.job_id)
      ∷ field "TRIGGER_TYPE" (runes (trigger_text item.trigger_type))
      ∷ field "STATUS" (runes (run_status_text item.status))
      ∷ field "SCHEDULED_FOR" (string_value (time_text f) item.scheduled_for)
      ∷ field "QUEUED_AT" (runes (time_text f item.queued_at))
      ∷ field "STARTED_AT" (string_value (time_text f) item.started_at)
      ∷ field "FINISHED_AT" (string_value (time_text f) item.finished_at)
      ∷ field "DURATION" (string_value f.duration item.duration)
      ∷ field "EXIT_CODE" (string_value f.codec.itoa item.exit_code)
      ∷ field "ERROR_MESSAGE" (string_value (λ s. s) item.error_message)
      ∷ field "RUNNER_ID" (string_value (λ s. s) item.runner_id)
      ∷ field "STDOUT_TRUNCATED" (bool_string item.stdout_truncated)
      ∷ field "STDERR_TRUNCATED" (bool_string item.stderr_truncated)
      ∷ field "STDOUT_PREVIEW" item.stdout_preview
      ∷ field "STDERR_PREVIEW" item.stderr_preview
      ∷ field "OUTPUT_UPDATED_AT" (string_value (time_text f) item.output_updated_at)
      ∷ []

  unfoldable pub print_run_detail : String → (RunDetail → Runes) → RunDetail → Action Terminal Unit
  unfolding parse_format print_fields
  print_run_detail flag encode =
      print_as flag encode λ item. print_fields f.align Format.table (run_fields item)
