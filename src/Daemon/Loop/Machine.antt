-- ===== src/Daemon/Loop/Machine.antt =====
-- The loop as a machine: ticks, executors that return, and the shutdown interleave, and between any
-- two of them other processes may write to the database.
use jobsd.Common.{ℕ, ◌≤◌, ◌==◌, true, not, Option, none, some, [], String, count_where, ◌≡◌, arith}
use jobsd.Action.{Action}
use jobsd.Domain.{Time, Job, Run}
use jobsd.Env.{Env}
use jobsd.Sqlite.Engine.{Db}
use jobsd.Daemon.Loop.{
  CancelReason, ActiveRun, Loop, cancel_active_runs, finish_active_run, process_tick,
}
use jobsd.Daemon.Completion.{
  ExecutionResult, finish_time, announce, persist_run_completion, complete, complete_run,
  finish_params, finished_run, final_status,
}
use jobsd.Sqlite.RunResults.{mark_finished}
use jobsd.Sqlite.Jobs.{update_last_run_summary}
use jobsd.Daemon.Loop.Live.{live, count_canceled, live-select}
use jobsd.Daemon.Loop.Live.Ticks.{Still, Still-on_db, Still-bind, Still-logged, process_tick-live}

module _ (env : Env) (notify : String → Job → Run → Action Db Unit) where
  -- What may happen to the loop.
  pub data Event : Type 0 where
    ticks : ℕ → Event
    returns : ℕ → ExecutionResult → Event
    shuts_down : Event
    others_write : Db → Event

  pub after : Event → Loop → Loop
  after (ticks fuel) l = (process_tick env fuel l).1
  after (returns run_id result) l = complete_run notify run_id result l
  after shuts_down l = cancel_active_runs CancelReason.shutdown l
  after (others_write db) l = record l { db = db }

  -- The states that a loop can come to from `start`.
  pub data Reaches (start : Loop) : Loop → Type 0 where
    here : Reaches start start
    then : {l : Loop} (event : Event) → Reaches start l → Reaches start (after event l)

  finish_time-Still : (t : Time) → Still (finish_time t)
  unfolding finish_time
  finish_time-Still t = record { at = λ l. ground arith }

  announce-Still :
      (a : ActiveRun) (result : ExecutionResult) (at : Time) → Still (announce notify a result at)
  unfolding announce
  announce-Still a result at = record {
    at = λ l.
        (Still-logged _ (Still-on_db (notify l.instance_name a.job (finished_run a result at)))).at
          l;
  }

  persist-Still :
      (a : ActiveRun) (result : ExecutionResult) → Still (persist_run_completion notify a result)
  unfolding persist_run_completion
  persist-Still a result = Still-logged _ (
      Still-bind (finish_time result.finished_at) _ (finish_time-Still result.finished_at) λ at.
        Still-bind _ _ (Still-on_db (mark_finished (finish_params a result at))) λ u.
          Still-bind _ _
            (Still-logged _ (
              Still-on_db (
                update_last_run_summary a.run.job_id (some at)
                  (some (final_status a.reason result.status)) at)))
            λ v. announce-Still a result at)

  complete-live :
      (id : ℕ) (found : Option ActiveRun) (result : ExecutionResult) (l : Loop)
      → live id (complete notify found result l) ≤ live id l
  unfolding complete finish_active_run
  complete-live id none result l = omega arith
  complete-live id (some a) result l =
      rw ((persist-Still a result).at l)
        (live-select id (λ b. not (b.run_id == a.run_id)) l.active_by_run_id)

  complete_run-live :
      (id run_id : ℕ) (result : ExecutionResult) (l : Loop)
      → live id (complete_run notify run_id result l) ≤ live id l
  unfolding complete_run
  complete_run-live id run_id result l = complete-live id _ result l

  after-live : (id : ℕ) (event : Event) (l : Loop) → live id l ≤ 1 → live id (after event l) ≤ 1
  unfolding after
  after-live id (ticks fuel) l h = process_tick-live env id fuel l h
  after-live id (returns run_id result) l h =
      let e = complete_run-live id run_id result l in omega arith
  after-live id shuts_down l h =
      unfold cancel_active_runs in
      let e = count_canceled id (λ a. true) CancelReason.shutdown l.active_by_run_id in omega arith
  after-live id (others_write db) l h = h

  -- Whatever ticks, executors that return, shutdowns and writes of other processes have happened in
  -- whatever order since the loop had no active run, a job has at most one run that is active and not
  -- canceled, whatever the stores answered and whatever its policy is or was.
  pub Reaches-live :
      (start l : Loop) → start.active_by_run_id ≡ [] → Reaches start l → (id : ℕ) → live id l ≤ 1
  unfolding count_where
  Reaches-live start l e here id = rw e (omega arith)
  Reaches-live start l e (then {l = k} event r) id =
      after-live id event k (Reaches-live start k e r id)
