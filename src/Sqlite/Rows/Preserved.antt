-- ===== src/Sqlite/Rows/Preserved.antt =====
-- The operations of the stores keep the rows of job_runs sane, whether they succeed or fail.
use jobsd.Common.{◌≡◌, arith}
use jobsd.Result.{Result, ok}
use jobsd.Env.{Env, Codec}
use jobsd.Sqlite.{Tables}
use jobsd.Sqlite.Engine.{Db}
use jobsd.Sqlite.Jobs.{insert_job, update_job, set_next_run, set_last_run}
use jobsd.Sqlite.Deliveries.{insert_delivery}
use jobsd.Sqlite.Metadata.{put_value, delete_key}
use jobsd.Sqlite.Rows.{RunsAreSane}
use jobsd.Sqlite.Rows.Statements.{
  insert_run-sane, claim-sane, start-sane, end_run-sane, cancel_pending-sane, delete_job-sane,
  put_output-sane,
}
use jobsd.Sqlite.Operations.{StoreOperation, perform}
use jobsd.Sqlite.Operations.Kept.{Kept, StatementsKeep}
use jobsd.Sqlite.Operations.Lifted.{perform-kept}

-- a statement that leaves the runs alone
untouched :
    {A : Type 0} (f : Tables → Result (A × Tables))
    → ((t : Tables) (a : A) (t' : Tables)
        → f t ≡ ok (a, t')
        → (t'.runs ≡ t.runs) × (t'.run_seq ≡ t.run_seq))
    → Kept RunsAreSane f
untouched f same t h a t' e =
    let (runs, seq) = same t a t' e in record { rows = rw runs h.rows; ids = rw (runs, seq) h.ids }

statements-sane : StatementsKeep RunsAreSane
unfolding insert_job update_job set_next_run set_last_run insert_delivery put_value delete_key
statements-sane = record {
  keeps_insert_run = λ job_id kind due at known. insert_run-sane job_id kind due at known;
  keeps_claim = claim-sane;
  keeps_start = start-sane;
  keeps_end_run = λ p valid final. end_run-sane p valid final;
  keeps_put_output = put_output-sane;
  keeps_cancel_pending = cancel_pending-sane;
  keeps_delete_job = delete_job-sane;
  keeps_insert_job = λ row. untouched (insert_job row) (λ t a t' e. (ground arith, ground arith));
  keeps_update_job = λ row. untouched (update_job row) (λ t a t' e. (ground arith, ground arith));
  keeps_set_next_run =
      λ id next at. untouched (set_next_run id next at) (λ t a t' e. (ground arith, ground arith));
  keeps_set_last_run = λ id last status at.
      untouched (set_last_run id last status at) (λ t a t' e. (ground arith, ground arith));
  keeps_insert_delivery =
      λ d. untouched (insert_delivery d) (λ t a t' e. (ground arith, ground arith));
  keeps_put_value =
      λ key v at. untouched (put_value key v at) (λ t a t' e. (ground arith, ground arith));
  keeps_delete_key = λ key. untouched (delete_key key) (λ t a t' e. (ground arith, ground arith));
}

-- Every operation of the stores keeps the runs sane, whether it succeeds or fails.
pub perform-RunsAreSane :
    (env : Env) (codec : Codec) (op : StoreOperation) (db : Db)
    → RunsAreSane db.tables
    → RunsAreSane (perform env codec op db).1.tables
perform-RunsAreSane env codec op db h = perform-kept RunsAreSane statements-sane env codec op db h
