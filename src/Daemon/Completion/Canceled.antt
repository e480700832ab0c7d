-- ===== src/Daemon/Completion/Canceled.antt =====
-- A run that was canceled while it was active is stored as canceled.
use jobsd.Common.{
  ℕ, ◌==◌, false, Option, some, List, [], ◌∷◌, String, find_where, update_where, ◌≡◌, ◌≢◌, refl,
  arith, ◌∙◌, ap,
}
use jobsd.Result.{ok}
use jobsd.Action.{Action}
use jobsd.Domain.{Time, Job, Run, RunStatus, is_zero_time}
use jobsd.Sqlite.{RunRow}
use jobsd.Sqlite.Engine.{Db}
use jobsd.Sqlite.RunResults.{FinishRunParams, ended, mark_finished}
use jobsd.Sqlite.RunResults.Finishing.{mark_finished_ok}
use jobsd.Sqlite.Jobs.{update_last_run_summary, set_last_run}
use jobsd.Daemon.Loop.{CancelReason, ActiveRun, Loop}
use jobsd.Daemon.Completion.{
  ExecutionResult, final_status, finish_params, finished_run, finish_time, announce,
  persist_run_completion,
}

summary-runs :
    (id : ℕ) (at : Option Time) (status : Option RunStatus) (updated : Time) (db : Db)
    → (update_last_run_summary id at status updated db).1.tables.runs ≡ db.tables.runs
unfolding update_last_run_summary set_last_run
summary-runs id at status updated db = ground arith

found_ended :
    (p : FinishRunParams) (rs : List RunRow) {row : RunRow}
    → find_where (λ r. r.id == p.run_id) (update_where (λ r. r.id == p.run_id) (ended p) rs)
      ≡ some row
    → row.status ≡ p.status
unfolding find_where update_where
found_ended p [] e = cc
found_ended p (r ∷ rs) {row} e = ground (arith, found_ended p rs {row = row})

final_status-canceled :
    (reason : CancelReason) (status : RunStatus)
    → reason ≢ CancelReason.unset
    → final_status reason status ≡ RunStatus.canceled
final_status-canceled CancelReason.unset status h = absurd (h refl)
final_status-canceled CancelReason.replace status h = refl
final_status-canceled CancelReason.shutdown status h = refl

module _ (notify : String → Job → Run → Action Db Unit)
    (notify_keeps : (name : String) (job : Job) (run : Run) (db : Db)
      → (notify name job run db).1.tables.runs ≡ db.tables.runs) where
  persist-runs :
      (a : ActiveRun) (result : ExecutionResult) (l : Loop) {db : Db}
      → is_zero_time result.finished_at ≡ false
      → mark_finished (finish_params a result result.finished_at) l.db ≡ (ok tt, db)
      → (persist_run_completion notify a result l).1.db.tables.runs ≡ db.tables.runs
  unfolding persist_run_completion announce finish_time
  persist-runs a result l {db} dated stored =
      let at = result.finished_at in
      let summary =
        update_last_run_summary a.run.job_id (some at) (some (final_status a.reason result.status))
          at in
      ground (
        arith,
        summary-runs a.run.job_id (some at) (some (final_status a.reason result.status)) at db,
        notify_keeps l.instance_name a.job (finished_run a result at) (summary db).1,
      )

  -- If a run was canceled by a replacement or a shutdown before its executor returned at a time that
  -- is set, and MarkFinished succeeds, then the run is stored as canceled, whatever the executor
  -- made of it, if telling of it leaves the runs in the database alone.
  pub persist_run_completion-canceled :
      (a : ActiveRun) (result : ExecutionResult) (l : Loop) {db : Db} {row : RunRow}
      → a.reason ≢ CancelReason.unset
      → is_zero_time result.finished_at ≡ false
      → mark_finished (finish_params a result result.finished_at) l.db ≡ (ok tt, db)
      → find_where
          (λ r. r.id == a.run_id)
          (persist_run_completion notify a result l).1.db.tables.runs
        ≡ some row
      → row.status ≡ RunStatus.canceled
  persist_run_completion-canceled a result l {db} {row} canceled dated stored found =
      let p = finish_params a result result.finished_at in
      let written = mark_finished_ok p l.db stored in
      let same = persist-runs a result l dated stored ∙ ap (λ t. t.runs) written.2 in
      found_ended p l.db.tables.runs {row = row} (rw same at found)
      ∙ final_status-canceled a.reason result.status canceled
