-- ===== src/Examples/Instances.antt =====
-- An instance: its metadata, its migrations, its state file, and the scheduler that serves it.
use jobsd.Common.{◌==◌, select, false, none, some, List, [], ◌∷◌, String, pos, ◌≡◌, refl, arith}
use jobsd.Common.Text.{is_blank, runes, text_eq}
use jobsd.Result.{Result, ok}
use jobsd.Domain.{SchedulerState, InstanceMetadata}
use jobsd.Domain.OnFinish.{
  normalize_on_finish_config, parse_on_finish_config_json, marshal_on_finish_config_json,
}
use jobsd.Env.{Codec}
use jobsd.Sqlite.{Tables, MetadataKey}
use jobsd.Sqlite.Engine.{Db}
use jobsd.Sqlite.Metadata.{
  get_metadata, upsert_metadata, same_key, decode_metadata, lookup, put_all, values_of,
}
use jobsd.Sqlite.Metadata.Cell.{upsert_metadata-get}
use jobsd.Sqlite.Migrate.{Entry, migrate}
use jobsd.Sqlite.Migrate.Once.{KeepsVersions, migrate-migrate}
use jobsd.Daemon.State.{StateJson, SchedulerStateJson, Files}
use jobsd.Daemon.State.File.{FileCall, cell, run, replay, run-replay}
use jobsd.App.Instance.{on_finish_get, on_finish_set, ensure_instance_metadata}
use jobsd.App.Instance.Hook.{HookCommand, on_finish_get-run_hook}
use jobsd.Examples.{plain_codec, normal_hook, short_hook, minute_env, small_db}

abbrev home : InstanceMetadata
home = record {
  instance_name = "home";
  created_at = 60_000_000_500;
  scheduler_port = pos 8080;
  on_finish = some short_hook;
}

abbrev pub all_keys : List MetadataKey
all_keys =
    MetadataKey.on_finish_json ∷ MetadataKey.instance_name ∷ MetadataKey.created_at
    ∷ MetadataKey.scheduler_port ∷ []

abbrev after_upsert : Db
after_upsert = (upsert_metadata minute_env plain_codec all_keys 70_000_000_000 home small_db).1

upsert_metadata-get_example :
    (get_metadata minute_env plain_codec after_upsert).0
    ≡ ok (record home { created_at = 60_000_000_000; on_finish = some normal_hook })
unfolding same_key normalize_on_finish_config is_blank upsert_metadata marshal_on_finish_config_json
    put_all values_of
upsert_metadata-get_example =
    upsert_metadata-get minute_env plain_codec all_keys 70_000_000_000 home (some normal_hook)
      small_db {db' = after_upsert} (refl, refl, refl, refl)
      (refl, record { read_back = refl; visible = refl })
      (record { number_back = refl; time_back = refl; time_visible = refl }) refl refl

-- the one migration that is there, in a directory with another file
abbrev pub two_entries : List Entry
two_entries =
    (record { name = runes "0001_init.sql"; is_dir = false; content = some "CREATE" })
    ∷ (record { name = runes "README.md"; is_dir = false; content = none })
    ∷ []

abbrev pub no_script : String → Tables → Result (Unit {0} × Tables)
no_script sql t = ok (tt, t)

no_script-KeepsVersions : KeepsVersions no_script
no_script-KeepsVersions sql t t' h = ground arith

abbrev migrated : Db
migrated = (migrate no_script (λ v. 50) (λ text. some (pos 1)) two_entries small_db).1

migrate-migrate_example :
    ((migrate no_script (λ v. 60) (λ text. some (pos 1)) two_entries migrated).1.tables
      ≡ migrated.tables)
    × ((migrate no_script
          (λ v. 60)
          (λ text. some (pos 1))
          two_entries
          (record migrated { refuses = λ n. false })).0
        ≡ ok tt)
unfolding migrate text_eq
migrate-migrate_example =
    migrate-migrate no_script (λ v. 50) (λ v. 60) (λ text. some (pos 1)) two_entries small_db
      migrated {db' = migrated} no_script-KeepsVersions refl refl

abbrev pub running : SchedulerState
running = record {
  instance_name = "home";
  pid = pos 8080;
  port = pos 8080;
  token = "secret";
  db_path = "/home/jobs.db";
  started_at = 60_000_000_500;
  version = "1.0";
}

abbrev running_json : SchedulerStateJson
running_json = record {
  instance_name = "home";
  pid = pos 8080;
  port = pos 8080;
  token = "secret";
  db_path = "/home/jobs.db";
  started_at = "0001-01-01T00:01:00Z";
  version = "1.0";
}

abbrev pub plain_json : StateJson
plain_json = record { marshal = λ raw. "{}"; unmarshal = λ text. some running_json }

-- files of a system whose eighth call fails: it is the removal
abbrev pub fresh_files : Files
fresh_files = record { state_file = none; temp_file = none; fails = λ n. n == 8; calls = 0 }

abbrev file_calls : List (FileCall plain_codec plain_json)
file_calls = FileCall.write running "{" ∷ FileCall.read ∷ FileCall.remove 2 false ∷ []

run-replay_example :
    cell plain_codec plain_json (run plain_codec plain_json file_calls fresh_files).1
    ≡ replay plain_codec plain_json file_calls
        (run plain_codec plain_json file_calls fresh_files).0
        (cell plain_codec plain_json fresh_files)
run-replay_example = run-replay plain_codec plain_json file_calls fresh_files (
  record {
    object = refl;
    start = record { number_back = refl; time_back = refl; time_visible = refl };
  },
  (tt, (tt, tt)),
)

abbrev fresh_home : InstanceMetadata
fresh_home = record {
  instance_name = "home";
  created_at = 60_000_000_000;
  scheduler_port = pos 0;
  on_finish = none;
}

-- the same codec for a port that is not set yet
abbrev zero_codec : Codec
zero_codec = record plain_codec { itoa = λ n. "0"; atoi = λ text. some (pos 0) }

abbrev after_set : Db
after_set =
    (on_finish_set minute_env zero_codec all_keys "home" "{}" 60_000_000_000 70_000_000_000
      small_db).1

on_finish_get-run_hook_example :
    (on_finish_get minute_env zero_codec "home" after_set).0
    ≡ ok (record { instance_name = "home"; on_finish = some normal_hook })
unfolding same_key ensure_instance_metadata get_metadata decode_metadata lookup select on_finish_set
    parse_on_finish_config_json is_blank normalize_on_finish_config upsert_metadata
    marshal_on_finish_config_json put_all values_of
on_finish_get-run_hook_example =
    on_finish_get-run_hook minute_env zero_codec (HookCommand.set "{}") all_keys "home"
      60_000_000_000 70_000_000_000 fresh_home small_db
      {printed = record { instance_name = "home"; on_finish = some normal_hook }} {db' = after_set}
      (refl, refl, refl, refl) refl
      (record { number_back = refl; time_back = refl; time_visible = refl }) refl
      (record { read_back = refl; visible = refl }) refl
