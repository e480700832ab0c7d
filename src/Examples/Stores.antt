-- ===== src/Examples/Stores.antt =====
-- The stores at one job and one run.
use jobsd.Common.{
  ◌≤◌, [], ◌∷◌, IsSortedBy, length, select, sort_by, insert_by, true, false, ◌==◌, none, some, pos,
  find_where, ◌≡◌, ◌≢◌, ◌⊎◌, refl, arith, All, count_where, update_where,
}
use jobsd.Result.{engine, ok}
use jobsd.Domain.{RunStatus}
use jobsd.Sqlite.Engine.{Db}
use jobsd.Sqlite.Runs.{join_jobs, scan_runs, list_pending, try_claim_pending}
use jobsd.Sqlite.Runs.Oldest.{earlier_run, waits, ListedOrLater, list_pending_oldest}
use jobsd.Sqlite.Runs.Claims.{try_claim_pending_once}
use jobsd.Sqlite.RunResults.{mark_finished, get_run_with_output}
use jobsd.Sqlite.RunResults.Finishing.{mark_finished_atomic}
use jobsd.Sqlite.RunResults.ReadBack.{mark_finished-get_run_with_output}
use jobsd.Sqlite.Rows.{RunsAreSane}
use jobsd.Sqlite.Operations.{StoreOperation, perform}
use jobsd.Sqlite.Rows.Preserved.{perform-RunsAreSane}
use jobsd.Sqlite.Sound.{TablesAreSound}
use jobsd.Sqlite.Sound.Preserved.{perform-TablesAreSound}
use jobsd.Sqlite.Jobs.{has_id, due_rows, update_next_run}
use jobsd.Sqlite.Jobs.Due.{update_next_run-due}
use jobsd.Examples.{
  minute_env, plain_codec, small_tables, small_db, full_disk, finish_well, waiting_run,
}

small_tables-RunsAreSane : RunsAreSane small_tables
small_tables-RunsAreSane = record { rows = (ground arith, tt); ids = (omega arith, omega arith) }

perform-RunsAreSane_example :
    RunsAreSane
      (perform minute_env plain_codec (StoreOperation.claim_some "loop-1" 8) small_db).1.tables
perform-RunsAreSane_example =
    perform-RunsAreSane minute_env plain_codec (StoreOperation.claim_some "loop-1" 8) small_db
      small_tables-RunsAreSane

pub small_tables-TablesAreSound : TablesAreSound small_tables
unfolding count_where
small_tables-TablesAreSound = record {
  names = (refl, tt);
  ids = (refl, tt);
  given = (omega arith, tt);
  runs = (refl, tt);
  outputs = tt;
  deliveries = tt;
}

perform-TablesAreSound_example :
    TablesAreSound
      (perform minute_env plain_codec (StoreOperation.remove_job "backup") small_db).1.tables
perform-TablesAreSound_example =
    perform-TablesAreSound minute_env plain_codec (StoreOperation.remove_job "backup") small_db
      small_tables-TablesAreSound

mark_finished_atomic_example : (mark_finished finish_well full_disk).1.tables ≡ small_tables
unfolding mark_finished
mark_finished_atomic_example = mark_finished_atomic finish_well full_disk {e = engine} refl

abbrev finished_db : Db
finished_db = (mark_finished finish_well small_db).1

mark_finished-get_run_with_output_example :
    ((get_run_with_output 1 finished_db).0
      ≡ ok (record waiting_run {
        status = RunStatus.succeeded;
        finished_at = some 130_000_000_000;
        exit_code = some (pos 0);
        output = finish_well.output;
      }))
    × ((finish_well.status ≡ RunStatus.succeeded)
        ⊎ (finish_well.status ≡ RunStatus.failed)
        ⊎ (finish_well.status ≡ RunStatus.canceled))
    × (find_where (λ r. r.id == 2) finished_db.tables.runs ≡ none)
    × (find_where (λ o. o.run_id == 2) finished_db.tables.outputs ≡ none)
    × (finished_db.tables ≡ record small_tables {
      runs = finished_db.tables.runs;
      outputs = finished_db.tables.outputs;
    })
unfolding mark_finished count_where update_where find_where get_run_with_output join_jobs
mark_finished-get_run_with_output_example =
    mark_finished-get_run_with_output finish_well waiting_run 2 small_db {db' = finished_db} refl
      refl refl refl

list_pending_oldest_example :
    IsSortedBy earlier_run (waiting_run ∷ [])
    × All (λ run. (run.status ≡ RunStatus.pending) × (run.runner_id ≡ none)) (waiting_run ∷ [])
    × (length (waiting_run ∷ []) ≤ 8)
    × All (ListedOrLater 8 (waiting_run ∷ [])) (select (waits small_tables) small_tables.runs)
    × ((list_pending 8 small_db).1.tables ≡ small_tables)
unfolding list_pending join_jobs sort_by insert_by find_where scan_runs
list_pending_oldest_example = list_pending_oldest 8 small_db {runs = waiting_run ∷ []} refl

abbrev claimed_db : Db
claimed_db = (try_claim_pending 1 "loop-1" small_db).1

try_claim_pending_once_example : (try_claim_pending 1 "loop-2" claimed_db).0 ≢ ok true
unfolding try_claim_pending count_where
try_claim_pending_once_example =
    try_claim_pending_once 1 "loop-1" "loop-2" small_db {db' = claimed_db} refl

abbrev moved_db : Db
moved_db = (update_next_run 1 (some 180_000_000_000) 125_000_000_000 small_db).1

update_next_run-due_example : All (λ j. has_id 1 j ≡ false) (due_rows 125 moved_db.tables)
unfolding update_next_run count_where
update_next_run-due_example =
    update_next_run-due 1 180_000_000_000 125_000_000_000 125_000_000_000 small_db {db' = moved_db}
      refl (omega arith)
