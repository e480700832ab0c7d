-- ===== src/Examples/Scheduling.antt =====
-- Schedules, the policies and the loop at one job.
use jobsd.Common.{
  true, ℕ, ◌+◌, ◌≤◌, ◌<◌, none, some, [], String, ◌≡◌, ◌⊎◌, refl, arith, count_where, find_where,
  update_where,
}
use jobsd.Common.Text.{runes}
use jobsd.Result.{engine, ok, err, hang}
use jobsd.Action.{Action, pure}
use jobsd.Domain.{RunStatus, Time, Job, Run, Schedule, ScheduleKind, ConcurrencyPolicy}
use jobsd.Sqlite.Engine.{Db}
use jobsd.Schedule.Parser.{parse}
use jobsd.Schedule.Parser.Canonical.{parse-expr}
use jobsd.Schedule.Next.{next}
use jobsd.Daemon.Policy.{
  load_job_location, compute_future_next_run, enqueue_by_policy, enqueue_manual_with_policy,
}
use jobsd.Daemon.Policy.Future.{
  schedule_of, IsFirstAfter, compute_future_next_run_first, compute_future_next_run_never,
}
use jobsd.Daemon.Policy.Counts.{unfinished, waiting}
use jobsd.Daemon.Policy.AtMostOne.{
  enqueue_forbid_full, enqueue_forbid_at_most_one, enqueue_manual_at_most_one, enqueue_replace,
}
use jobsd.Daemon.Loop.{CancelReason, ActiveRun, Loop}
use jobsd.Daemon.Completion.{ExecutionResult, finish_params, persist_run_completion}
use jobsd.Daemon.Completion.Canceled.{persist_run_completion-canceled}
use jobsd.Sqlite.{RunRow}
use jobsd.Sqlite.RunResults.{mark_finished}
use jobsd.Sqlite.Jobs.{update_last_run_summary}
use jobsd.Daemon.Loop.Live.{live}
use jobsd.Daemon.Loop.Machine.{Event, after, Reaches, Reaches-live}
use jobsd.Examples.{
  waiting_run, waiting_row, minute_env, never_env, backup_job, small_tables, small_db,
}

abbrev every_minute : Schedule
every_minute = record { kind = ScheduleKind.interval; expr = runes "every 1m" }

abbrev at_noon : Schedule
at_noon = record { kind = ScheduleKind.cron; expr = runes "cron 0 12 * * *" }

parse-expr_example : parse minute_env at_noon.expr ≡ ok at_noon
unfolding parse
parse-expr_example = parse-expr minute_env (runes " CRON 0 12  * * * ") {s = at_noon} refl

compute_future_next_run_first_example :
    (n : ℕ) × (at : Time) × (0 < n)
    × (next minute_env (schedule_of backup_job) 120_000_000_000 (some "Local")
        ≡ ok (120_000_000_000 + n))
    × (compute_future_next_run minute_env 200_000_000_000 backup_job 300_000_000_000 ≡ ok at)
    × IsFirstAfter minute_env 300_000_000_000 120_000_000_000 n at
unfolding parse load_job_location
compute_future_next_run_first_example =
    compute_future_next_run_first minute_env (runes "every 1m") backup_job "Local" 300_000_000_000
      120_000_000_000 refl refl refl 200_000_000_000 (ground arith) (omega arith) (omega arith)

abbrev noon_job : Job
noon_job = record backup_job { schedule_kind = ScheduleKind.cron; schedule_expr = at_noon.expr }

compute_future_next_run_never_example :
    compute_future_next_run never_env 1000 noon_job 130_000_000_000 ≡ hang
unfolding parse load_job_location
compute_future_next_run_never_example =
    compute_future_next_run_never never_env at_noon.expr noon_job "Local" 130_000_000_000
      120_000_000_000 refl refl refl refl (λ r. refl) 1000

enqueue_forbid_full_example :
    (enqueue_by_policy ConcurrencyPolicy.forbid backup_job 120_000_000_000 125_000_000_000
      small_db).1.tables
    ≡ small_tables
unfolding count_where find_where
enqueue_forbid_full_example =
    enqueue_forbid_full backup_job 120_000_000_000 125_000_000_000 small_db refl (ground arith)

enqueue_forbid_at_most_one_example :
    unfinished 1
      (enqueue_by_policy ConcurrencyPolicy.forbid backup_job 120_000_000_000 125_000_000_000
        small_db).1.tables
    ≤ 1
unfolding count_where
enqueue_forbid_at_most_one_example =
    enqueue_forbid_at_most_one backup_job 120_000_000_000 125_000_000_000 small_db (omega arith)

enqueue_manual_at_most_one_example :
    unfinished 1 (enqueue_manual_with_policy backup_job 125_000_000_000 small_db).1.tables ≤ 1
unfolding count_where
enqueue_manual_at_most_one_example =
    enqueue_manual_at_most_one backup_job 125_000_000_000 small_db refl (omega arith)

enqueue_replace_example :
    ((enqueue_by_policy ConcurrencyPolicy.replace backup_job 120_000_000_000 125_000_000_000
          small_db).1.tables
        ≡ small_tables)
      × ((enqueue_by_policy ConcurrencyPolicy.replace backup_job 120_000_000_000 125_000_000_000
            small_db).0
          ≡ err engine)
    ⊎ waiting 1
        (enqueue_by_policy ConcurrencyPolicy.replace backup_job 120_000_000_000 125_000_000_000
          small_db).1.tables
      ≤ 1
enqueue_replace_example = enqueue_replace backup_job 120_000_000_000 125_000_000_000 small_db

abbrev fresh_loop : Loop
fresh_loop = record {
  instance_name = "home";
  db = small_db;
  clock = λ n. 125_000_000_000 + n;
  readings = 0;
  generated = "loop-1";
  runner_id = "";
  active_by_run_id = [];
  waiting = 0;
  limit = 8;
}

abbrev silent : String → Job → Run → Action Db Unit
silent name job run = pure tt

abbrev ticked : Loop
ticked = after minute_env silent (Event.ticks 5) fresh_loop

Reaches-live_example : live 1 (after minute_env silent Event.shuts_down ticked) ≤ 1
Reaches-live_example =
    Reaches-live minute_env silent fresh_loop (after minute_env silent Event.shuts_down ticked) refl
      (Reaches.then Event.shuts_down (Reaches.then (Event.ticks 5) Reaches.here)) 1

abbrev stopped_run : ActiveRun
stopped_run = record {
  run_id = 1;
  job_id = 1;
  reason = CancelReason.shutdown;
  canceled = true;
  job = backup_job;
  run = waiting_run;
}

abbrev killed : ExecutionResult
killed = record {
  status = RunStatus.failed;
  started_at = 126_000_000_000;
  finished_at = 127_000_000_000;
  exit_code = none;
  error_message = some "context canceled";
  output = none;
}

abbrev stored_row : RunRow
stored_row = record waiting_row {
  status = RunStatus.canceled;
  finished_at = some 127;
  error_message = some "canceled by shutdown";
}

persist_run_completion-canceled_example : stored_row.status ≡ RunStatus.canceled
unfolding mark_finished persist_run_completion count_where find_where update_where
    update_last_run_summary
persist_run_completion-canceled_example =
    persist_run_completion-canceled silent (λ name job run db. refl) stopped_run killed fresh_loop
      {db = (mark_finished (finish_params stopped_run killed 127_000_000_000) small_db).1}
      {row = stored_row} (ground arith) refl refl refl
