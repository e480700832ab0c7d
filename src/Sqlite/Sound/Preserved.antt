-- ===== src/Sqlite/Sound/Preserved.antt =====
-- The operations of the stores keep what holds between the tables, whether they succeed or fail.
use jobsd.Common.{List, subst, arith}
use jobsd.Env.{Env, Codec}
use jobsd.Sqlite.{Tables, MetadataRow}
use jobsd.Sqlite.Engine.{Db}
use jobsd.Sqlite.Migrate.Kept.{IgnoresVersions}
use jobsd.Sqlite.Metadata.{put_value, delete_key}
use jobsd.Sqlite.Sound.{TablesAreSound}
use jobsd.Sqlite.Sound.Jobs.{
  insert_job-TablesAreSound, update_job-TablesAreSound, delete_job-TablesAreSound,
  set_next_run-TablesAreSound, set_last_run-TablesAreSound,
}
use jobsd.Sqlite.Sound.Runs.{
  insert_run-TablesAreSound, claim-TablesAreSound, start-TablesAreSound, end_run-TablesAreSound,
  cancel_pending-TablesAreSound, put_output-TablesAreSound, insert_delivery-TablesAreSound,
}
use jobsd.Sqlite.Operations.{StoreOperation, perform}
use jobsd.Sqlite.Operations.Kept.{StatementsKeep}
use jobsd.Sqlite.Operations.Lifted.{perform-kept}

-- the metadata refers to no other table
metadata_changed :
    (t : Tables) (rows : List MetadataRow)
    → TablesAreSound t
    → TablesAreSound (record t { metadata = rows })
metadata_changed t rows h = record {
  names = h.names;
  ids = h.ids;
  given = h.given;
  runs = h.runs;
  outputs = h.outputs;
  deliveries = h.deliveries;
}

statements_sound : StatementsKeep TablesAreSound
unfolding put_value delete_key
statements_sound = record {
  keeps_insert_run = λ job_id kind due at known. insert_run-TablesAreSound job_id kind due at known;
  keeps_claim = claim-TablesAreSound;
  keeps_start = start-TablesAreSound;
  keeps_end_run = λ p valid final. end_run-TablesAreSound p;
  keeps_put_output = put_output-TablesAreSound;
  keeps_cancel_pending = cancel_pending-TablesAreSound;
  keeps_delete_job = delete_job-TablesAreSound;
  keeps_insert_job = insert_job-TablesAreSound;
  keeps_update_job = update_job-TablesAreSound;
  keeps_set_next_run = set_next_run-TablesAreSound;
  keeps_set_last_run = set_last_run-TablesAreSound;
  keeps_insert_delivery = insert_delivery-TablesAreSound;
  keeps_put_value =
      λ key v at t h a t' e. subst TablesAreSound (ground arith) (metadata_changed t t'.metadata h);
  keeps_delete_key =
      λ key t h a t' e. subst TablesAreSound (ground arith) (metadata_changed t t'.metadata h);
}

pub TablesAreSound-IgnoresVersions : IgnoresVersions TablesAreSound
TablesAreSound-IgnoresVersions = record {
  versions = λ t rows h. record {
    names = h.names;
    ids = h.ids;
    given = h.given;
    runs = h.runs;
    outputs = h.outputs;
    deliveries = h.deliveries;
  };
}

-- Every operation of the stores, whether it succeeds or fails, keeps the tables sound: jobs with different
-- names and different ids that have been given out, runs of jobs that are there, and outputs and hook
-- deliveries of runs that are there.
pub perform-TablesAreSound :
    (env : Env) (codec : Codec) (op : StoreOperation) (db : Db)
    → TablesAreSound db.tables
    → TablesAreSound (perform env codec op db).1.tables
perform-TablesAreSound env codec op db h =
    perform-kept TablesAreSound statements_sound env codec op db h
