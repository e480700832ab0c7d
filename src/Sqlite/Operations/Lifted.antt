-- ===== src/Sqlite/Operations/Lifted.antt =====
-- What every statement of the stores keeps, every operation keeps, whether it succeeds or fails.
use jobsd.Common.{
  ℕ, ltb, ◌==◌, true, false, ◌&&◌, ◌||◌, not, Option, none, some, List, [], ◌∷◌, String, ◌≡◌, refl,
  subst, arith, Bool-cases, inl, inr, ◌⊎◌, is_none,
}
use jobsd.Result.{run_not_found, job_not_found}
use jobsd.Action.{Action, pure}
use jobsd.Domain.{
  Time, Run, RunOutput, RunTriggerType, Job, RunHookDelivery, InstanceMetadata, run_status_is_valid,
  is_pending, is_running,
}
use jobsd.Env.{Env, Codec}
use jobsd.Sqlite.{Stamp, Tables, MetadataKey, format_time, format_time_ptr}
use jobsd.Sqlite.Engine.{Db, exec}
use jobsd.Sqlite.Engine.Keeps.{
  Keeps, Keeps-bind, Keeps-pure, Keeps-lift, Keeps-query, Keeps-exec, Keeps-if, Keeps-refuse_if,
  Keeps-transaction,
}
use jobsd.Sqlite.Runs.{
  get_run, enqueue_manual, enqueue_scheduled, claim, try_claim_pending, claim_all, claim_pending,
  pending_rows, scan_runs, mark_running,
}
use jobsd.Sqlite.RunResults.{
  FinishRunParams, end_run, put_output, upsert_output, store_end, mark_finished, is_undated,
  cancel_pending_by_job,
}
use jobsd.Sqlite.Jobs.{
  insert_job, update_job, delete_job, bad_last_status, delete_by_name, update_next_run,
  update_last_run_summary,
}
use jobsd.Sqlite.JobRecords.{validate_job, job_row, get_by_id, create, update}
use jobsd.Sqlite.Deliveries.{insert_delivery, create_delivery}
use jobsd.Sqlite.Metadata.{
  Values, put_value, delete_key, values_of, put_found, put_all, get_metadata, upsert_metadata,
  set_on_finish,
}
use jobsd.Domain.OnFinish.{marshal_on_finish_config_json}
use jobsd.Sqlite.Operations.{
  StoreOperation, enqueue_by_hand, enqueue_due, claim_one, claim_some, begin_run, finish_run,
  cancel_waiting, create_job, change_job, remove_job, move_next_run, note_last_run, record_delivery,
  write_metadata, write_hook, done, perform,
}
use jobsd.Sqlite.Operations.Kept.{StatementsKeep}

module _ (P : Tables → Type 0) (k : StatementsKeep P) where
  get_run-kept : (id : ℕ) → Keeps P (get_run id)
  unfolding get_run
  get_run-kept id = Keeps-bind _ _ (Keeps-query _) (λ rows. Keeps-lift _)

  claim_all-kept : (runner : String) (runs : List Run) → Keeps P (claim_all runner runs)
  unfolding claim_all
  claim_all-kept runner [] = Keeps-pure []
  claim_all-kept runner (run ∷ runs) =
      Keeps-bind _ _ (Keeps-exec _ (k.keeps_claim run.id runner))
        (λ affected. Keeps-bind _ _ (claim_all-kept runner runs) (λ claimed. Keeps-pure _))

  claim_pending-kept : (runner : String) (limit : ℕ) → Keeps P (claim_pending runner limit)
  unfolding claim_pending
  claim_pending-kept runner limit = Keeps-if (limit == 0) _ _ (Keeps-pure []) (
      Keeps-transaction _ (
        Keeps-bind _ _ (Keeps-query (pending_rows limit))
          (λ rows. Keeps-bind _ _ (Keeps-lift (scan_runs rows)) (claim_all-kept runner))))

  mark_running-kept : (id : ℕ) (at : Time) → Keeps P (mark_running id at)
  unfolding mark_running
  mark_running-kept id at =
      Keeps-bind _ _ (Keeps-exec _ (k.keeps_start id (format_time at))) (λ affected.
        Keeps-if (ltb 0 affected) _ _ (Keeps-pure tt)
          (Keeps-bind _ _ (Keeps-query _) (λ exists. Keeps-lift _)))

  upsert_output-kept : (id : ℕ) (o : Option RunOutput) → Keeps P (upsert_output id o)
  unfolding upsert_output
  upsert_output-kept id none = Keeps-pure tt
  upsert_output-kept id (some o) = Keeps-exec (put_output id o) (k.keeps_put_output id o)

  store_end-kept :
      (p : FinishRunParams)
      → run_status_is_valid p.status ≡ true
      → (is_pending p.status || is_running p.status) ≡ false
      → Keeps P (store_end p)
  unfolding store_end
  store_end-kept p valid final =
      Keeps-bind (exec (end_run p)) _ (Keeps-exec (end_run p) (k.keeps_end_run p valid final))
        (λ affected.
          Keeps-bind _ _ (Keeps-refuse_if (affected == 0) run_not_found)
            (λ found. upsert_output-kept p.run_id p.output))

  mark_finished-kept : (p : FinishRunParams) → Keeps P (mark_finished p)
  unfolding mark_finished
  mark_finished-kept p =
      elim (Bool-cases
        (run_status_is_valid p.status && not (is_pending p.status || is_running p.status))) [
          | inl fits ↦ Keeps-bind _ _ (Keeps-refuse_if (not (run_status_is_valid p.status)) _) (λ a.
              Keeps-bind _ _ (Keeps-refuse_if (is_pending p.status || is_running p.status) _) (λ b.
                Keeps-bind _ _ (Keeps-refuse_if (is_undated p.output) _) (λ c.
                  Keeps-transaction (store_end p)
                    (store_end-kept p (ground arith) (ground arith)))))
          | inr bad ↦ record { at = λ db h. subst P (ground arith) h }
        ]

  delete_by_name-kept : (name : String) → Keeps P (delete_by_name name)
  unfolding delete_by_name
  delete_by_name-kept name =
      Keeps-bind _ _ (Keeps-exec (delete_job name) (k.keeps_delete_job name))
        (λ affected. Keeps-refuse_if (affected == 0) job_not_found)

  create_delivery-kept : (d : RunHookDelivery) → Keeps P (create_delivery d)
  unfolding create_delivery
  create_delivery-kept d = record { at = λ db h. go db h (moved db) }
    where
      moved :
          (db : Db)
          → ((create_delivery d db).1.tables ≡ (exec (insert_delivery d) db).1.tables)
            ⊎ ((create_delivery d db).1.tables ≡ db.tables)
      moved db = ground arith

      go :
          (db : Db)
          → P db.tables
          → ((create_delivery d db).1.tables ≡ (exec (insert_delivery d) db).1.tables)
            ⊎ ((create_delivery d db).1.tables ≡ db.tables)
          → P (create_delivery d db).1.tables
      go db h (inl e) =
          rw e ((Keeps-exec {P = P} (insert_delivery d) (k.keeps_insert_delivery d)).at db h)
      go db h (inr e) = rw e h

  module _ (env : Env) (codec : Codec) where
    get_by_id-kept : (id : ℕ) → Keeps P (get_by_id env id)
    unfolding get_by_id
    get_by_id-kept id = Keeps-bind _ _ (Keeps-query _) (λ rows. Keeps-lift _)

    create-kept : (job : Job) → Keeps P (create env job)
    unfolding create
    create-kept job = Keeps-bind _ _ (Keeps-lift (validate_job env job)) (λ u.
        Keeps-bind _ _ (Keeps-lift (job_row env job)) (λ row.
          Keeps-bind _ _ (Keeps-exec (insert_job row) (k.keeps_insert_job row)) get_by_id-kept))

    update-kept : (job : Job) → Keeps P (update env job)
    unfolding update
    update-kept job = Keeps-bind _ _ (Keeps-lift (validate_job env job)) (λ u.
        Keeps-bind _ _ (Keeps-lift (job_row env job)) (λ row.
          Keeps-bind _ _ (Keeps-exec (update_job row) (k.keeps_update_job row)) (λ affected.
            Keeps-bind _ _ (Keeps-refuse_if (affected == 0) job_not_found)
              (λ found. get_by_id-kept job.id))))

    get_metadata-kept : Keeps P (get_metadata env codec)
    unfolding get_metadata
    get_metadata-kept = Keeps-bind _ _ (Keeps-query _) (λ rows. Keeps-lift _)

    put_all-kept :
        (keys : List MetadataKey) (values : Values) (at : Stamp) → Keeps P (put_all keys values at)
    unfolding put_all
    put_all-kept [] values at = Keeps-pure tt
    put_all-kept (key ∷ keys) values at = go (values key) (put_all-kept keys values at)
      where
        go :
            (v : Option String)
            → Keeps P (put_all keys values at)
            → Keeps P (put_found key at (put_all keys values at) v)
        go none rest = rest
        go (some v) rest =
            Keeps-bind _ _ (Keeps-exec (put_value key v at) (k.keeps_put_value key v at))
              (λ u. rest)

    upsert_metadata-kept :
        (keys : List MetadataKey) (now : Time) (meta : InstanceMetadata)
        → Keeps P (upsert_metadata env codec keys now meta)
    unfolding upsert_metadata
    upsert_metadata-kept keys now meta = Keeps-transaction _ (
        Keeps-bind _ _ (Keeps-lift (marshal_on_finish_config_json env meta.on_finish)) (λ json.
          Keeps-bind _ _ (put_all-kept keys (values_of codec meta json) (format_time now)) (λ u.
            Keeps-if (is_none json) _ _
              (Keeps-exec (delete_key MetadataKey.on_finish_json)
                (k.keeps_delete_key MetadataKey.on_finish_json))
              (Keeps-pure tt))))

    done-kept : {A : Type 0} (m : Action Db A) → Keeps P m → Keeps P (done m)
    done-kept m h = Keeps-bind m (λ a. pure tt) h (λ a. Keeps-pure tt)

    operation-kept : (op : StoreOperation) → Keeps P (perform env codec op)
    unfolding perform
    operation-kept (enqueue_by_hand job_id at) = done-kept (enqueue_manual job_id at) (
        unfold enqueue_manual in
        Keeps-bind _ _
          (Keeps-exec _
            (k.keeps_insert_run job_id RunTriggerType.manual none (format_time at) refl))
          get_run-kept)
    operation-kept (enqueue_due job_id due at) = done-kept (enqueue_scheduled job_id due at) (
        unfold enqueue_scheduled in
        Keeps-bind _ _
          (Keeps-exec _ (
            k.keeps_insert_run job_id RunTriggerType.schedule (some (format_time due))
              (format_time at) refl))
          get_run-kept)
    operation-kept (claim_one id runner) = done-kept (try_claim_pending id runner) (
        unfold try_claim_pending in
        Keeps-bind _ _ (Keeps-exec (claim id runner) (k.keeps_claim id runner))
          (λ affected. Keeps-pure _))
    operation-kept (claim_some runner limit) =
        done-kept (claim_pending runner limit) (claim_pending-kept runner limit)
    operation-kept (begin_run id at) = mark_running-kept id at
    operation-kept (finish_run p) = mark_finished-kept p
    operation-kept (cancel_waiting job_id at) =
        unfold cancel_pending_by_job in
        Keeps-exec _ (k.keeps_cancel_pending job_id (format_time at))
    operation-kept (create_job job) = done-kept (create env job) (create-kept job)
    operation-kept (change_job job) = done-kept (update env job) (update-kept job)
    operation-kept (remove_job name) = delete_by_name-kept name
    operation-kept (move_next_run id next at) =
        unfold update_next_run in
        Keeps-bind _ _
          (Keeps-exec _ (k.keeps_set_next_run id (format_time_ptr next) (format_time at)))
          (λ affected. Keeps-refuse_if (affected == 0) job_not_found)
    operation-kept (note_last_run id last status at) =
        unfold update_last_run_summary in
        Keeps-bind _ _ (Keeps-refuse_if (bad_last_status status) _) (λ u.
          Keeps-bind _ _
            (Keeps-exec _ (k.keeps_set_last_run id (format_time_ptr last) status (format_time at)))
            (λ affected. Keeps-refuse_if (affected == 0) job_not_found))
    operation-kept (record_delivery d) = done-kept (create_delivery d) (create_delivery-kept d)
    operation-kept (write_metadata keys now meta) = upsert_metadata-kept keys now meta
    operation-kept (write_hook keys now config) =
        unfold set_on_finish in
        Keeps-bind _ _ get_metadata-kept
          (λ meta. upsert_metadata-kept keys now (record meta { on_finish = config }))

    -- A property that every statement keeps is kept by every operation.
    pub perform-kept :
        (op : StoreOperation) (db : Db) → P db.tables → P (perform env codec op db).1.tables
    perform-kept op db h = (operation-kept op).at db h
