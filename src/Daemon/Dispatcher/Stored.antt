-- ===== src/Daemon/Dispatcher/Stored.antt =====
-- The dispatcher as Serve builds it: its metadata come from the metadata store.
use jobsd.Common.{some, String, ◌≡◌, arith}
use jobsd.Domain.{Job, Run}
use jobsd.Env.{Env, Codec}
use jobsd.Sqlite.Engine.{Db}
use jobsd.Sqlite.Metadata.{get_metadata}
use jobsd.Daemon.Dispatcher.{Hooks, notify}
use jobsd.Daemon.Dispatcher.Attempts.{MetadataKeepsRuns, notify-runs}

get_metadata-MetadataKeepsRuns :
    (env : Env) (codec : Codec) → MetadataKeepsRuns (some (get_metadata env codec))
unfolding get_metadata
get_metadata-MetadataKeepsRuns env codec runs = record { at = λ db h. ground arith }

-- Whatever becomes of a hook, and whichever statements the engine refuses, the dispatcher that reads the
-- metadata store leaves every run in the database as it was.
pub notify_stored-runs :
    (env : Env) (codec : Codec) (hooks : Hooks) (instance_name : String) (job : Job) (run : Run)
    (db : Db)
    → (notify env (some (get_metadata env codec)) hooks instance_name job run db).1.tables.runs
      ≡ db.tables.runs
notify_stored-runs env codec hooks instance_name job run db =
    notify-runs env (some (get_metadata env codec)) hooks instance_name job run db
      (get_metadata-MetadataKeepsRuns env codec)
