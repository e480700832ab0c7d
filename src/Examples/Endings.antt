-- ===== src/Examples/Endings.antt =====
-- A command that has run, the end of its run and the rows of its hook.
use jobsd.Common.{
  true, false, if◌then◌else◌, some, none, List, [], ◌≡◌, ◌≢◌, refl, pos, arith, find_where,
}
use jobsd.Common.Text.{is_blank}
use jobsd.Result.{ok}
use jobsd.Domain.{RunStatus}
use jobsd.Domain.OnFinish.{normalize_on_finish_config}
use jobsd.Sqlite.RunResults.{FinishRunParams, mark_finished, get_run_with_output}
use jobsd.Sqlite.Runs.{join_jobs}
use jobsd.Daemon.Loop.{CancelReason, ActiveRun}
use jobsd.Daemon.Executor.{WaitError, Outcome, Finished, execute}
use jobsd.Daemon.Executor.Verdict.{went_well, execute_verdict}
use jobsd.Daemon.Executor.Stored.{end_params, shown_code, shown_capture, execution_stored}
use jobsd.Daemon.Dispatcher.{HookAttemptResult, resolve_config, notify}
use jobsd.Daemon.Dispatcher.Recorded.{CanRecord, with_deliveries, delivery_rows, notify_recorded}
use jobsd.Examples.{minute_env, normal_hook, backup_job, waiting_run, small_tables, small_db}
use jobsd.Examples.Hooks.{failing, two_reads}

abbrev exited : Finished
exited = record {
  context_error = none;
  stdout = two_reads;
  stderr = [];
  state = some (pos 0);
  waited = WaitError.success;
}

execute_verdict_example :
    ((execute 60_000_000_000 90_000_000_000 (Outcome.finished exited)).status
      ≡ (if went_well exited then RunStatus.succeeded else RunStatus.failed))
    × (went_well exited ≡ true
        → ((execute 60_000_000_000 90_000_000_000 (Outcome.finished exited)).exit_code ≢ none)
          × ((execute 60_000_000_000 90_000_000_000 (Outcome.finished exited)).error_message
              ≡ none))
execute_verdict_example = execute_verdict 60_000_000_000 90_000_000_000 exited

abbrev active_backup : ActiveRun
active_backup = record {
  run_id = 1;
  job_id = 1;
  reason = CancelReason.unset;
  canceled = false;
  job = backup_job;
  run = waiting_run;
}

abbrev well_ended : FinishRunParams
well_ended = end_params active_backup 60_000_000_000 90_000_000_000 (Outcome.finished exited)

execution_stored_example :
    ((mark_finished well_ended small_db).0 ≡ ok tt)
    × ((get_run_with_output 1 (mark_finished well_ended small_db).1).0
        ≡ ok (record waiting_run {
          status = RunStatus.succeeded;
          finished_at = some 90_000_000_000;
          exit_code = shown_code (Outcome.finished exited);
          error_message = well_ended.error_message;
          runner_id = none;
          output = shown_capture (Outcome.finished exited) 90_000_000_000 none;
        }))
unfolding get_run_with_output join_jobs find_where
execution_stored_example =
    execution_stored active_backup 60_000_000_000 90_000_000_000 (Outcome.finished exited)
      waiting_run small_db refl refl (λ n. refl)

failing-CanRecord : CanRecord failing normal_hook
failing-CanRecord = record {
  sink = refl;
  started = λ n. ground arith;
  finished = λ n. ground arith;
}

notify_recorded_example :
    (rs : List HookAttemptResult) × ((notify minute_env none failing "home" backup_job waiting_run
        small_db).0
      ≡ ok rs)
    × ((notify minute_env none failing "home" backup_job waiting_run small_db).1.tables
        ≡ with_deliveries small_tables (delivery_rows failing 1 normal_hook 0 1 rs))
unfolding resolve_config normalize_on_finish_config is_blank find_where
notify_recorded_example =
    notify_recorded minute_env none failing "home" backup_job waiting_run small_db {c = normal_hook}
      {db' = small_db} refl failing-CanRecord refl refl (λ n. refl)
