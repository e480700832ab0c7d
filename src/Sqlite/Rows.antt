-- ===== src/Sqlite/Rows.antt =====
-- What makes the rows of job_runs well formed.
pub mod Statements
pub mod Preserved
use jobsd.Common.{
  ℕ, zero, suc, ◌≤◌, ◌<◌, ltb, ◌==◌, Bool, true, false, ◌&&◌, ◌||◌, not, Option, none, some, List,
  [], ◌∷◌, ◌++◌, String, if◌then◌else◌, is_none, update_where, count_where, select, All, ◌≡◌, refl,
  subst, arith, Bool-cases, inl, inr,
}
use jobsd.Common.Lists.Laws.{All-append, All-select, All-update_where}
use mathlib.Core.Path.{subst₂}
use jobsd.Result.{Error, run_not_found, job_not_found, Result, ok, err, hang}
use jobsd.Action.{Action, pure, lift, ◌>>=◌}
use jobsd.Domain.{
  Time, Run, RunOutput, RunStatus, RunTriggerType, run_status_is_valid, trigger_type_is_valid,
  is_pending, is_running,
}
use jobsd.Sqlite.{Stamp, Tables, RunRow, format_time}
use jobsd.Sqlite.Engine.{Db, exec}
use jobsd.Sqlite.Engine.Keeps.{
  Keeps, Keeps-bind, Keeps-pure, Keeps-lift, Keeps-query, Keeps-exec, Keeps-if, Keeps-refuse_if,
  Keeps-transaction,
}
use jobsd.Sqlite.Runs.{
  insert_run, get_run, enqueue_manual, enqueue_scheduled, claims, claim, try_claim_pending,
  claim_all, claim_pending, pending_rows, scan_runs, starts, start, run_exists, mark_running,
}
use jobsd.Sqlite.RunResults.{
  FinishRunParams, ended, end_run, put_output, upsert_output, store_end, mark_finished, is_undated,
  pending_of, canceled_at, cancel_pending, cancel_pending_by_job,
}
use jobsd.Sqlite.Jobs.{has_name, run_of, among_runs, delete_job, delete_by_name}

-- A row is sane: its texts are ones that the program knows, a running run has a start, and exactly
-- the runs that have ended have an end, and no runner.
pub record IsSane (r : RunRow) : Type 0 where
  pub known_status : run_status_is_valid r.status ≡ true
  pub known_trigger : trigger_type_is_valid r.trigger_type ≡ true
  pub started : is_running r.status ≡ true → is_none r.started_at ≡ false
  pub unfinished : is_pending r.status || is_running r.status ≡ true → r.finished_at ≡ none
  pub finished :
      is_pending r.status || is_running r.status ≡ false
      → (is_none r.finished_at ≡ false) × (r.runner_id ≡ none)

-- The ids ascend from above `low`, and `high` bounds them.
abbrev pub Ascend : ℕ → List RunRow → ℕ → Type 0
Ascend low [] high = low ≤ high
Ascend low (r ∷ rs) high = (low < r.id) × Ascend r.id rs high

-- The runs of the tables: sane rows, under different ids that AUTOINCREMENT has given out.
pub record RunsAreSane (t : Tables) : Type 0 where
  pub rows : All IsSane t.runs
  pub ids : Ascend 0 t.runs t.run_seq
