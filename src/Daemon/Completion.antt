-- ===== src/Daemon/Completion.antt =====
-- internal/daemon/loop.go: how a run that the executor has finished is stored and announced.
pub mod Canceled
use jobsd.Common.{ℕ, ◌==◌, Option, none, some, String, ℤ, if◌then◌else◌, find_where}
use jobsd.Action.{Action, pure, ◌>>=◌, ◌>>◌, logged}
use jobsd.Domain.{Time, Job, Run, RunOutput, RunStatus, is_zero_time}
use jobsd.Sqlite.Engine.{Db}
use jobsd.Sqlite.RunResults.{FinishRunParams, mark_finished}
use jobsd.Sqlite.Jobs.{update_last_run_summary}
use jobsd.Daemon.Loop.{CancelReason, ActiveRun, Loop, on_db, now, finish_active_run}

-- executor.go
pub record ExecutionResult : Type 0 where
  pub status : RunStatus
  pub started_at : Time
  pub finished_at : Time
  pub exit_code : Option ℤ
  pub error_message : Option String
  pub output : Option RunOutput

-- the `switch` on active.reason()
abbrev pub final_status : CancelReason → RunStatus → RunStatus
final_status CancelReason.unset status = status
final_status CancelReason.replace status = RunStatus.canceled
final_status CancelReason.shutdown status = RunStatus.canceled

abbrev pub final_message : CancelReason → Option String → Option String
final_message CancelReason.unset message = message
final_message CancelReason.replace message = some "canceled by replacement"
final_message CancelReason.shutdown message = some "canceled by shutdown"

-- `if finishedAt.IsZero() { finishedAt = time.Now().UTC() }`; the clock of the loop stands for time.Now
unfoldable pub finish_time : Time → Action Loop Time
finish_time t = if is_zero_time t then now else pure t

abbrev pub finish_params : ActiveRun → ExecutionResult → Time → FinishRunParams
finish_params a result at = record {
  run_id = a.run_id;
  status = final_status a.reason result.status;
  finished_at = at;
  exit_code = result.exit_code;
  error_message = final_message a.reason result.error_message;
  output = result.output;
}

-- the run that the hook is told of
abbrev pub finished_run : ActiveRun → ExecutionResult → Time → Run
finished_run a result at =
    let r = a.run in
    record r {
      status = final_status a.reason result.status;
      finished_at = some at;
      exit_code = result.exit_code;
      error_message = final_message a.reason result.error_message;
      runner_id = none;
      output = result.output;
    }

-- The notifier is an interface of the loop: what it does with the database is a parameter here,
-- and daemon/on_finish.go is one value of it.
module _ (notify : String → Job → Run → Action Db Unit) where
  unfoldable pub announce : ActiveRun → ExecutionResult → Time → Action Loop Unit
  announce a result at l =
      logged (on_db (notify l.instance_name a.job (finished_run a result at))) l

  unfoldable pub persist_run_completion : ActiveRun → ExecutionResult → Action Loop Unit
  unfolding finish_time announce
  persist_run_completion a result = logged do
    at ← finish_time result.finished_at
    on_db (mark_finished (finish_params a result at))
    logged (
        on_db (
          update_last_run_summary a.run.job_id (some at)
            (some (final_status a.reason result.status)) at))
    announce a result at

  -- the goroutine of startRunExecution from the moment the executor returns; the deferred
  -- finishActiveRun follows whatever happened
  unfoldable pub complete : Option ActiveRun → ExecutionResult → Loop → Loop
  unfolding persist_run_completion finish_active_run
  complete none result l = l
  complete (some a) result l = finish_active_run a.run_id (persist_run_completion a result l).1

  unfoldable pub complete_run : ℕ → ExecutionResult → Loop → Loop
  unfolding complete
  complete_run run_id result l =
      complete (find_where (λ a. a.run_id == run_id) l.active_by_run_id) result l
