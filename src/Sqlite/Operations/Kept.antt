-- ===== src/Sqlite/Operations/Kept.antt =====
-- What it means that every statement of the stores keeps a property of the tables.
use jobsd.Common.{ℕ, true, false, ◌||◌, Option, String, ◌≡◌}
use jobsd.Result.{Result, ok}
use jobsd.Domain.{
  RunOutput, RunStatus, RunTriggerType, RunHookDelivery, run_status_is_valid, trigger_type_is_valid,
  is_pending, is_running,
}
use jobsd.Sqlite.{Stamp, Tables, JobRow, MetadataKey}
use jobsd.Sqlite.Runs.{insert_run, start, claim}
use jobsd.Sqlite.RunResults.{FinishRunParams, end_run, put_output, cancel_pending}
use jobsd.Sqlite.Jobs.{insert_job, update_job, delete_job, set_next_run, set_last_run}
use jobsd.Sqlite.Deliveries.{insert_delivery}
use jobsd.Sqlite.Metadata.{put_value, delete_key}

-- A statement that succeeds leaves a property of the tables as it was.
abbrev pub Kept : (Tables → Type 0) → {A : Type 0} → (Tables → Result (A × Tables)) → Type 0
Kept P {A} f = (t : Tables) → P t → (a : A) (t' : Tables) → f t ≡ ok (a, t') → P t'

-- The statements that write tables, with what their callers have checked.
pub record StatementsKeep (P : Tables → Type 0) : Type 0 where
  pub keeps_insert_run :
      (job_id : ℕ) (kind : RunTriggerType) (due : Option Stamp) (at : Stamp)
      → trigger_type_is_valid kind ≡ true
      → Kept P (insert_run job_id kind due at)
  pub keeps_claim : (id : ℕ) (runner : String) → Kept P (claim id runner)
  pub keeps_start : (id : ℕ) (at : Stamp) → Kept P (start id at)
  pub keeps_end_run :
      (p : FinishRunParams)
      → run_status_is_valid p.status ≡ true
      → (is_pending p.status || is_running p.status) ≡ false
      → Kept P (end_run p)
  pub keeps_put_output : (id : ℕ) (o : RunOutput) → Kept P (put_output id o)
  pub keeps_cancel_pending : (job_id : ℕ) (at : Stamp) → Kept P (cancel_pending job_id at)
  pub keeps_insert_job : (row : JobRow) → Kept P (insert_job row)
  pub keeps_update_job : (row : JobRow) → Kept P (update_job row)
  pub keeps_delete_job : (name : String) → Kept P (delete_job name)
  pub keeps_set_next_run :
      (id : ℕ) (next : Option Stamp) (at : Stamp) → Kept P (set_next_run id next at)
  pub keeps_set_last_run :
      (id : ℕ) (last : Option Stamp) (status : Option RunStatus) (at : Stamp)
      → Kept P (set_last_run id last status at)
  pub keeps_insert_delivery : (d : RunHookDelivery) → Kept P (insert_delivery d)
  pub keeps_put_value :
      (key : MetadataKey) (value : String) (at : Stamp) → Kept P (put_value key value at)
  pub keeps_delete_key : (key : MetadataKey) → Kept P (delete_key key)
