-- ===== src/Daemon/Loop/Live.antt =====
-- The runs of a job that are active and have not been canceled: what each step of the loop makes of
-- their number.
pub mod Ticks
use jobsd.Common.{
  ℕ, zero, suc, ◌+◌, ◌≤◌, ◌==◌, Bool, true, false, not, ◌&&◌, ◌||◌, Option, none, some, List, [],
  ◌∷◌, String, if◌then◌else◌, select, update_where, count_where, ◌≡◌, ◌≢◌, refl, arith, Bool-cases,
  inl, inr, ◌⊎◌,
}
use jobsd.Result.{Error, Result, ok, err, hang}
use jobsd.Action.{Action, pure, lift, continue, ◌>>=◌, ◌>>◌, logged}
use jobsd.Domain.{Time, Job, Run, RunStatus, ConcurrencyPolicy}
use jobsd.Env.{Env}
use jobsd.Sqlite.Engine.{Db}
use jobsd.Sqlite.Runs.{list_pending, try_claim_pending, mark_running}
use jobsd.Sqlite.JobRecords.{get_by_id, list_due}
use jobsd.Daemon.Policy.{normalize_policy, enqueue_scheduled_with_policy}
use jobsd.Daemon.Loop.{
  CancelReason, ActiveRun, Loop, on_db, now, claim_limit, set_reason, cancel_run, of_job,
  cancel_active_runs, cancel_job_runs, has_active_run, finish_active_run, ensure_runner_id,
  prepare_by_policy, prepare_run_start, start_run_execution, launch, start_pending, start_all,
  process_pending_runs, enqueue_all, process_due_jobs, process_tick,
}

abbrev pub is_live : ℕ → ActiveRun → Bool
is_live id a = of_job id a && not a.canceled

-- how many runs of a job are active and not canceled
abbrev pub live : ℕ → Loop → ℕ
live id l = count_where (is_live id) l.active_by_run_id

pub count_canceled :
    (id : ℕ) (p : ActiveRun → Bool) (reason : CancelReason) (xs : List ActiveRun)
    → count_where (is_live id) (update_where p (cancel_run reason) xs) ≤ count_where (is_live id) xs
unfolding count_where update_where
count_canceled id p reason [] = omega arith
count_canceled id p reason (a ∷ xs) = ground (arith, count_canceled id p reason xs)

none_live_canceled :
    (id : ℕ) (reason : CancelReason) (xs : List ActiveRun)
    → count_where (is_live id) (update_where (of_job id) (cancel_run reason) xs) ≡ 0
unfolding count_where update_where
none_live_canceled id reason [] = refl
none_live_canceled id reason (a ∷ xs) = ground (arith, none_live_canceled id reason xs)

none_live_inactive :
    (id : ℕ) (xs : List ActiveRun)
    → count_where (of_job id) xs ≡ 0
    → count_where (is_live id) xs ≡ 0
unfolding count_where
none_live_inactive id [] e = refl
none_live_inactive id (a ∷ xs) e = ground (arith, none_live_inactive id xs)

pub live-select :
    (id : ℕ) (p : ActiveRun → Bool) (xs : List ActiveRun)
    → count_where (is_live id) (select p xs) ≤ count_where (is_live id) xs
unfolding count_where select
live-select id p [] = omega arith
live-select id p (a ∷ xs) = ground (arith, live-select id p xs)

-- prepareRunStart: if the run may start, no other run of its job is live any more, and the number
-- of live runs of any job has not grown.
pub prepare_lem :
    (id : ℕ) (job : Job) (l : Loop)
    → (live id (prepare_run_start job l).1 ≤ live id l)
      × ((prepare_run_start job l).0 ≡ ok false
          ⊎ ((prepare_run_start job l).0 ≡ ok true) × (live job.id (prepare_run_start job l).1 ≡ 0))
unfolding prepare_run_start prepare_by_policy has_active_run cancel_job_runs
prepare_lem id job l = ground (
  arith,
  count_canceled id (of_job job.id) CancelReason.replace l.active_by_run_id,
  none_live_canceled job.id CancelReason.replace l.active_by_run_id,
  none_live_inactive job.id l.active_by_run_id,
)

-- What follows the preparation: the loop may add a run of the job whose live runs are gone.
pub start_lem :
    (id : ℕ) (job : Job) (run : Run) (l : Loop)
    → live id l ≤ 1
    → live job.id l ≡ 0
    → live id (start_run_execution job run l).1 ≤ 1
unfolding start_run_execution count_where
start_lem id job run l h e =
    ground (arith, live-select id (λ a. not (a.run_id == run.id)) l.active_by_run_id)
