-- ===== src/Examples/Commands.antt =====
-- The commands on a database with one job.
use jobsd.Common.{◌+◌, ◌≤◌, some, [], ◌∷◌, ◌≡◌, inl, refl, arith, All, length}
use jobsd.Common.Text.{is_blank}
use jobsd.Result.{ok}
use jobsd.Domain.OnFinish.{normalize_on_finish_config, marshal_on_finish_config_json}
use jobsd.Sqlite.{JobRow}
use jobsd.Sqlite.JobRecords.{validate_job, job_row, scan_job}
use jobsd.Sqlite.JobRecords.Stored.{stored_form, scan_job-job_row}
use jobsd.App.Support.{preview_output}
use jobsd.App.Support.Preview.{IsInline, preview_output-bounds}
use jobsd.App.Armed.{JobsAreArmed}
use jobsd.App.Armed.Commands.{JobCommand, tables_after, commands-JobsAreArmed}
use jobsd.Examples.{normal_hook, minute_env, backup_job, backup_row, small_db}

commands-JobsAreArmed_example :
    JobsAreArmed (tables_after minute_env (JobCommand.pause "backup" 130_000_000_000) small_db)
commands-JobsAreArmed_example =
    commands-JobsAreArmed minute_env (JobCommand.pause "backup" 130_000_000_000) small_db
      (inl (refl, refl), tt)

abbrev hooked_row : JobRow
hooked_row = record backup_row { on_finish_json = some "{}" }

scan_job-job_row_example :
    scan_job minute_env hooked_row ≡ ok (stored_form backup_job (some normal_hook))
unfolding validate_job job_row normalize_on_finish_config is_blank marshal_on_finish_config_json
scan_job-job_row_example =
    scan_job-job_row minute_env backup_job (some normal_hook) {row = hooked_row} refl
      (refl, record { read_back = refl; visible = refl }) refl

preview_output-bounds_example :
    (length (preview_output (104 ∷ 10 ∷ 105 ∷ []) 2) ≤ 2 + 3)
    × All IsInline (preview_output (104 ∷ 10 ∷ 105 ∷ []) 2)
preview_output-bounds_example = preview_output-bounds (104 ∷ 10 ∷ 105 ∷ []) 2 (omega arith)
