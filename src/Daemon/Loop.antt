-- ===== src/Daemon/Loop.antt =====
-- internal/daemon/loop.go: the runs that are active, and what a tick does.
pub mod Live
pub mod Machine
use text.Mathlib.Text.{◌==◌ as str_eq}
use jobsd.Common.{
  ℕ, zero, suc, ◌-◌, ltb, ◌==◌, Bool, true, false, not, ◌||◌, Option, none, some, List, [], ◌∷◌,
  String, if◌then◌else◌, select, update_where, count_where,
}
use jobsd.Result.{Error, Result, ok, err, hang}
use jobsd.Action.{Action, pure, lift, ◌>>=◌, ◌>>◌, logged}
use jobsd.Domain.{Time, Job, Run, RunStatus, ConcurrencyPolicy}
use jobsd.Env.{Env}
use jobsd.Sqlite.Engine.{Db}
use jobsd.Sqlite.Runs.{list_pending, try_claim_pending, mark_running}
use jobsd.Sqlite.JobRecords.{get_by_id, list_due}
use jobsd.Daemon.Policy.{normalize_policy, enqueue_scheduled_with_policy}

pub data CancelReason : Type 0 where
  unset replace shutdown : CancelReason

-- activeRun, with the job and the run that its goroutine holds; `canceled` says that Cancel was
-- called.
pub record ActiveRun : Type 0 where
  pub run_id : ℕ
  pub job_id : ℕ
  pub reason : CancelReason
  pub canceled : Bool
  pub job : Job
  pub run : Run

-- Loop, with the database behind its stores. `clock n` is the n-th reading of the clock, and
-- `generated` is the text that fmt.Sprintf makes of the time when the runner needs a name.
pub record Loop : Type 0 where
  pub instance_name : String
  pub db : Db
  pub clock : ℕ → Time
  pub readings : ℕ
  pub generated : String
  pub runner_id : String
  pub active_by_run_id : List ActiveRun
  pub waiting : ℕ
  pub limit : ℕ

-- A call of a store.
abbrev pub on_db : {A : Type 0} → Action Db A → Action Loop A
on_db m l = ((m l.db).0, record l { db = (m l.db).1 })

abbrev pub now : Action Loop Time
now l = (ok (l.clock l.readings), record l { readings = suc l.readings })

abbrev pub claim_limit : Loop → ℕ
claim_limit l = if ltb 0 l.limit then l.limit else 64

-- setReason: the first reason stays
abbrev pub set_reason : CancelReason → CancelReason → CancelReason
set_reason CancelReason.unset new = new
set_reason old new = old

-- active.setReason(reason); active.Cancel()
abbrev pub cancel_run : CancelReason → ActiveRun → ActiveRun
cancel_run reason a = record a { reason = set_reason a.reason reason; canceled = true }

abbrev pub of_job : ℕ → ActiveRun → Bool
of_job job_id a = a.job_id == job_id

unfoldable pub cancel_active_runs : CancelReason → Loop → Loop
cancel_active_runs reason l = record l {
  active_by_run_id = update_where (λ a. true) (cancel_run reason) l.active_by_run_id;
}

unfoldable pub cancel_job_runs : ℕ → CancelReason → Loop → Loop
cancel_job_runs job_id reason l = record l {
  active_by_run_id = update_where (of_job job_id) (cancel_run reason) l.active_by_run_id;
}

unfoldable pub has_active_run : ℕ → Loop → Bool
has_active_run job_id l = not (count_where (of_job job_id) l.active_by_run_id == 0)

-- delete(l.activeByRunID, runID); l.wg.Done()
unfoldable pub finish_active_run : ℕ → Loop → Loop
finish_active_run run_id l = record l {
  active_by_run_id = select (λ a. not (a.run_id == run_id)) l.active_by_run_id;
  waiting = l.waiting - 1;
}

unfoldable pub ensure_runner_id : Action Loop String
ensure_runner_id l =
    if str_eq l.runner_id ""
    then (ok l.generated, record l { runner_id = l.generated })
    else (ok l.runner_id, l)

-- the `switch` of prepareRunStart
unfoldable pub prepare_by_policy : ConcurrencyPolicy → ℕ → Action Loop Bool
prepare_by_policy ConcurrencyPolicy.replace job_id l =
    if has_active_run job_id l
    then (ok true, cancel_job_runs job_id CancelReason.replace l)
    else (ok true, l)
prepare_by_policy policy job_id l = (ok (not (has_active_run job_id l)), l)

unfoldable pub prepare_run_start : Job → Action Loop Bool
unfolding prepare_by_policy
prepare_run_start job = prepare_by_policy (normalize_policy job.concurrency_policy) job.id

-- startRunExecution up to the goroutine: a write to the map, and l.wg.Add(1)
unfoldable pub start_run_execution : Job → Run → Action Loop Unit
start_run_execution job run l = (
  ok tt,
  record l {
    active_by_run_id =
        record {
          run_id = run.id;
          job_id = job.id;
          reason = CancelReason.unset;
          canceled = false;
          job = job;
          run = run;
        }
        ∷ select (λ a. not (a.run_id == run.id)) l.active_by_run_id;
    waiting = suc l.waiting;
  },
)

-- what follows a claim that succeeded
unfoldable pub launch : Job → Run → Action Loop Unit
unfolding start_run_execution ensure_runner_id
launch job run = do
  started_at ← now
  on_db (mark_running run.id started_at)
  runner ← ensure_runner_id
  start_run_execution job (record run {
    status = RunStatus.running;
    started_at = some started_at;
    runner_id = some runner;
  })

module _ (env : Env) where
  -- the body of the loop of processPendingRuns: an error is logged, and the next run follows
  unfoldable pub start_pending : Run → Action Loop Unit
  unfolding prepare_run_start launch ensure_runner_id
  start_pending run = do
    job ← on_db (get_by_id env run.job_id)
    ready ← prepare_run_start job
    if not ready then pure tt else do
      runner ← ensure_runner_id
      claimed ← on_db (try_claim_pending run.id runner)
      if claimed then launch job run else pure tt

  unfoldable pub start_all : List Run → Action Loop Unit
  unfolding start_pending
  start_all [] = pure tt
  start_all (run ∷ runs) = do logged (start_pending run); start_all runs

  unfoldable pub process_pending_runs : Action Loop Unit
  unfolding start_all
  process_pending_runs l = logged (do runs ← on_db (list_pending (claim_limit l)); start_all runs) l

  unfoldable pub enqueue_all : ℕ → Time → List Job → Action Loop Unit
  enqueue_all fuel at [] = pure tt
  enqueue_all fuel at (job ∷ jobs) = do
    logged (on_db (enqueue_scheduled_with_policy env fuel job at))
    enqueue_all fuel at jobs

  unfoldable pub process_due_jobs : ℕ → Time → Action Loop Unit
  unfolding enqueue_all
  process_due_jobs fuel at = logged (do jobs ← on_db (list_due env at); enqueue_all fuel at jobs)

  -- a tick of Run
  unfoldable pub process_tick : ℕ → Action Loop Unit
  unfolding process_due_jobs process_pending_runs
  process_tick fuel = do at ← now; process_due_jobs fuel at; process_pending_runs
