-- ===== src/App/CommandLine.antt =====
-- internal/app/job.go: two commands as a whole, from the checks of their flags to the closing of the database.
pub mod Deleted
use jobsd.Common.{Bool, true, List, String}
use jobsd.Common.Text.{Runes, is_blank}
use jobsd.Result.{Result, ok, err, hang, invalid}
use jobsd.Action.{Action, pure, ◌>>=◌, ◌>>◌, refuse_if}
use jobsd.Sqlite.Engine.{Db}
use jobsd.Sqlite.Jobs.{delete_by_name}
use jobsd.App.Support.{JobSummary}
use jobsd.App.Jobs.{lookup_error, or_error, list_command}
use jobsd.App.InstanceDb.{Setup, Session, work_and_print, with_instance_db}
use jobsd.App.Print.{Formats, DeleteResult, print_delete_result, print_job_list}

-- what `job delete` prints once the job is gone
abbrev pub deleted : String → DeleteResult
deleted name = record { name = name; deleted = true }

-- the work of `job delete` with the database
abbrev pub delete_work : String → Action Db DeleteResult
delete_work name = or_error lookup_error (delete_by_name name) >>= λ u. pure (deleted name)

module _ (s : Setup) (f : Formats) (flag : String) where
  -- the RunE of newJobDeleteCommand
  unfoldable pub job_delete : String → String → (DeleteResult → Runes) → Action Session Unit
  unfolding with_instance_db print_delete_result
  job_delete instance_name name encode = do
    refuse_if (is_blank name) (invalid "name must not be empty")
    with_instance_db s instance_name
        (work_and_print (delete_work name) (print_delete_result f flag encode))

  -- the RunE of newJobListCommand
  unfoldable pub job_list : String → (List JobSummary → Runes) → Action Session Unit
  unfolding with_instance_db print_job_list list_command
  job_list instance_name encode =
      with_instance_db s instance_name
        (work_and_print (list_command f.env) (print_job_list f flag encode))
