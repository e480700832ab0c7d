-- ===== src/Examples/Opening.antt =====
-- A command that deletes the job of an instance.
use jobsd.Common.{false, pos, some, [], ◌≡◌, refl, subst, arith, count_where}
use jobsd.Common.Text.{Runes, is_blank, text_eq}
use jobsd.Result.{Result, ok}
use jobsd.Sqlite.Jobs.{has_name, delete_by_name}
use jobsd.Sqlite.Migrate.{migrate}
use jobsd.Config.{resolve_paths}
use jobsd.Sqlite.Sound.{TablesAreSound}
use jobsd.Sqlite.Sound.Preserved.{TablesAreSound-IgnoresVersions}
use jobsd.Sqlite.Migrate.Kept.{ScriptKeeps}
use jobsd.App.Print.{Formats, DeleteResult, print_delete_result}
use jobsd.App.InstanceDb.{Setup, Session, work_and_print, with_instance_db}
use jobsd.App.InstanceDb.Closed.{Done, with_instance_db-LeftClosed}
use jobsd.App.CommandLine.{delete_work, job_delete}
use jobsd.App.CommandLine.Deleted.{
  delete_work-Returns, delete_work_kept, print_delete_result-Ends, job_delete-LeftClosed,
}
use jobsd.Examples.{minute_env, plain_codec}
use jobsd.Examples.Instances.{two_entries, no_script}
use jobsd.Examples.Serving.{plain_places, idle_world}
use jobsd.Examples.Stores.{small_tables-TablesAreSound}

abbrev home_setup : Setup
home_setup = record {
  places = plain_places;
  script = no_script;
  applied_at = λ v. 50;
  atoi = λ text. some (pos 1);
  entries = two_entries;
}

no_script-ScriptKeeps : ScriptKeeps TablesAreSound no_script
no_script-ScriptKeeps = record {
  ends = λ sql t e. cc;
  keeps = λ sql t h u t' e. subst TablesAreSound (ground arith) h;
}

-- a tab writer that changes nothing
abbrev home_formats : Formats
home_formats = record {
  env = minute_env;
  codec = plain_codec;
  duration = λ n. "5s";
  error_text = λ e. "failed";
  align = λ s. s;
}

abbrev home_session : Session
home_session = record {
  world = idle_world;
  terminal = record { table_text = []; screen = []; refuses = λ n. false; writes = 0 };
}

abbrev no_json : DeleteResult → Runes
no_json d = []

with_instance_db-LeftClosed_example : Done TablesAreSound (
    with_instance_db home_setup "home"
      (work_and_print (delete_work "backup") (print_delete_result home_formats "table" no_json))
      home_session)
with_instance_db-LeftClosed_example =
    with_instance_db-LeftClosed TablesAreSound home_setup no_script-ScriptKeeps
      TablesAreSound-IgnoresVersions "home" (delete_work "backup")
      (print_delete_result home_formats "table" no_json) (delete_work-Returns "backup")
      (delete_work_kept minute_env plain_codec "backup")
      (print_delete_result-Ends home_formats "table" no_json) home_session
      (refl, small_tables-TablesAreSound)

abbrev after_delete : Result (Unit {0}) × Session
after_delete = job_delete home_setup home_formats "table" "home" "backup" no_json home_session

job_delete-LeftClosed_example :
    Done TablesAreSound after_delete
    × (after_delete.0 ≡ ok tt
        → count_where (has_name "backup") after_delete.1.world.db.tables.jobs ≡ 0)
job_delete-LeftClosed_example =
    job_delete-LeftClosed home_setup home_formats "table" "home" "backup" no_json
      no_script-ScriptKeeps home_session (refl, small_tables-TablesAreSound)

-- it does succeed
job_deleted : after_delete.0 ≡ ok tt
unfolding job_delete is_blank resolve_paths migrate text_eq delete_by_name count_where
job_deleted = refl
