-- ===== src/Sqlite/Operations.antt =====
-- internal/sqlite: every operation of the stores that writes a table, as data.
pub mod Kept
pub mod Lifted
use jobsd.Common.{ℕ, Option, List, String}
use jobsd.Action.{Action, pure, ◌>>=◌}
use jobsd.Domain.{Time, Job, RunStatus, RunHookDelivery, InstanceMetadata, OnFinishConfig}
use jobsd.Env.{Env, Codec}
use jobsd.Sqlite.{MetadataKey}
use jobsd.Sqlite.Engine.{Db}
use jobsd.Sqlite.Runs.{
  enqueue_manual, enqueue_scheduled, try_claim_pending, claim_pending, mark_running,
}
use jobsd.Sqlite.RunResults.{FinishRunParams, mark_finished, cancel_pending_by_job}
use jobsd.Sqlite.Jobs.{delete_by_name, update_next_run, update_last_run_summary}
use jobsd.Sqlite.JobRecords.{create, update}
use jobsd.Sqlite.Deliveries.{create_delivery}
use jobsd.Sqlite.Metadata.{upsert_metadata, set_on_finish}

pub data StoreOperation : Type 0 where
  enqueue_by_hand : ℕ → Time → StoreOperation
  enqueue_due : ℕ → Time → Time → StoreOperation
  claim_one : ℕ → String → StoreOperation
  claim_some : String → ℕ → StoreOperation
  begin_run : ℕ → Time → StoreOperation
  finish_run : FinishRunParams → StoreOperation
  cancel_waiting : ℕ → Time → StoreOperation
  create_job : Job → StoreOperation
  change_job : Job → StoreOperation
  remove_job : String → StoreOperation
  move_next_run : ℕ → Option Time → Time → StoreOperation
  note_last_run : ℕ → Option Time → Option RunStatus → Time → StoreOperation
  record_delivery : RunHookDelivery → StoreOperation
  write_metadata : List MetadataKey → Time → InstanceMetadata → StoreOperation
  write_hook : List MetadataKey → Time → Option OnFinishConfig → StoreOperation

-- An operation, without its value.
abbrev pub done : {A : Type 0} → Action Db A → Action Db Unit
done m = m >>= λ a. pure tt

module _ (env : Env) (codec : Codec) where
  unfoldable pub perform : StoreOperation → Action Db Unit
  perform (enqueue_by_hand job_id at) = done (enqueue_manual job_id at)
  perform (enqueue_due job_id due at) = done (enqueue_scheduled job_id due at)
  perform (claim_one id runner) = done (try_claim_pending id runner)
  perform (claim_some runner limit) = done (claim_pending runner limit)
  perform (begin_run id at) = mark_running id at
  perform (finish_run p) = mark_finished p
  perform (cancel_waiting job_id at) = cancel_pending_by_job job_id at
  perform (create_job job) = done (create env job)
  perform (change_job job) = done (update env job)
  perform (remove_job name) = delete_by_name name
  perform (move_next_run id next at) = update_next_run id next at
  perform (note_last_run id last status at) = update_last_run_summary id last status at
  perform (record_delivery d) = done (create_delivery d)
  perform (write_metadata keys now meta) = upsert_metadata env codec keys now meta
  perform (write_hook keys now config) = set_on_finish env codec keys now config
