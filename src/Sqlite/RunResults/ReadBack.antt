-- ===== src/Sqlite/RunResults/ReadBack.antt =====
-- What Get reads of a run after MarkFinished.
use jobsd.Common.{
  ℕ, ◌==◌, Bool, true, false, Option, none, some, List, [], ◌∷◌, find_where, count_where, ◌≡◌, ◌≢◌,
  ◌⊎◌, inl, inr, refl, arith, Bool-cases,
}
use jobsd.Result.{ok}
use jobsd.Domain.{Run, RunOutput, RunStatus, run_status_is_valid}
use jobsd.Sqlite.{JobRow, RunRow, OutputRow}
use jobsd.Sqlite.Engine.{Db}
use jobsd.Sqlite.Runs.{Joined, join_jobs}
use jobsd.Sqlite.RunResults.{
  FinishRunParams, output_row, mark_finished, scan_run_with_output, get_run_with_output,
}
use jobsd.Sqlite.RunResults.Scanned.{
  shown_after, join_jobs-update, find_where-upsert_other, find_where-update_other,
  find_where-outputs_after, scan_run_with_output-after,
}
use jobsd.Sqlite.RunResults.Finishing.{outputs_after, mark_finished_ok}

-- what Get reads, if it reads anything
get_run_with_output_scans :
    (id : ℕ) (db : Db) {r : Run}
    → (get_run_with_output id db).0 ≡ ok r
    → scan_run_with_output
        (join_jobs (λ r. r.id == id) db.tables.jobs db.tables.runs)
        (find_where (λ o. o.run_id == id) db.tables.outputs)
      ≡ ok r
unfolding get_run_with_output
get_run_with_output_scans id db {r} h = ground arith

scans-get_run_with_output :
    (id : ℕ) (db : Db) {r : Run}
    → db.refuses db.statements ≡ false
    → scan_run_with_output
        (join_jobs (λ r. r.id == id) db.tables.jobs db.tables.runs)
        (find_where (λ o. o.run_id == id) db.tables.outputs)
      ≡ ok r
    → (get_run_with_output id db).0 ≡ ok r
unfolding get_run_with_output
scans-get_run_with_output id db {r} free h = ground arith

find_where-outputs_after_other :
    (p : FinishRunParams) (os : List OutputRow) (other : ℕ) (given : Option RunOutput)
    → p.output ≡ given
    → (other == p.run_id) ≡ false
    → find_where (λ o. o.run_id == other) (outputs_after p os)
      ≡ find_where (λ o. o.run_id == other) os
find_where-outputs_after_other p os other none h apart = rw h refl
find_where-outputs_after_other p os other (some o) h apart =
    rw h (find_where-upsert_other (output_row p.run_id o) os other apart)

join_jobs-some :
    (test : RunRow → Bool) (jobs : List JobRow) (rs : List RunRow) (row : Joined)
    {rows : List Joined}
    → join_jobs test jobs rs ≡ row ∷ rows
    → count_where test rs ≢ 0
unfolding join_jobs count_where
join_jobs-some test jobs [] row {rows} h = cc
join_jobs-some test jobs (r ∷ rs) row {rows} h = elim (Bool-cases (test r)) [
  | inl e ↦ ground (arith, e)
  | inr e ↦
      let rest = join_jobs-some test jobs rs row {rows = rows} (ground (arith, e)) in
      ground (arith, e)
]

scan-some :
    (rows : List Joined) (o : Option OutputRow) {r : Run}
    → scan_run_with_output rows o ≡ ok r
    → (row : Joined) × (rest : List Joined) × (rows ≡ row ∷ rest)
scan-some [] o {r} h = cc
scan-some (row ∷ rows) o {r} h = (row, rows, refl)

-- a run that Get reads is in the table
pub get_run_with_output_found :
    (id : ℕ) (db : Db) {r : Run}
    → (get_run_with_output id db).0 ≡ ok r
    → count_where (λ r. r.id == id) db.tables.runs ≢ 0
get_run_with_output_found id db h =
    let (row, rest, e) =
      scan-some (join_jobs (λ r. r.id == id) db.tables.jobs db.tables.runs)
        (find_where (λ o. o.run_id == id) db.tables.outputs) (get_run_with_output_scans id db h) in
    join_jobs-some (λ r. r.id == id) db.tables.jobs db.tables.runs row e

final_status_is_valid :
    (s : RunStatus)
    → (s ≡ RunStatus.succeeded) ⊎ (s ≡ RunStatus.failed) ⊎ (s ≡ RunStatus.canceled)
    → run_status_is_valid s ≡ true
final_status_is_valid s h = ground arith

-- If Get reads a run, then after a MarkFinished of it that succeeds Get reads the same run with the status, the
-- time (in whole seconds), the exit code and the message that were given, with no runner, and with the output
-- that was given (its time in whole seconds) or, if none was, the output it had; the status is a final one. The
-- rows of every other run, its own and that of its output, stay as they were, and so does every other table.
-- The statement of the second Get must not be refused.
pub mark_finished-get_run_with_output :
    (p : FinishRunParams) (before : Run) (other : ℕ) (db : Db) {db' : Db}
    → (get_run_with_output p.run_id db).0 ≡ ok before
    → mark_finished p db ≡ (ok tt, db')
    → db'.refuses db'.statements ≡ false
    → (other == p.run_id) ≡ false
    → ((get_run_with_output p.run_id db').0 ≡ ok (shown_after p before))
      × ((p.status ≡ RunStatus.succeeded)
          ⊎ (p.status ≡ RunStatus.failed)
          ⊎ (p.status ≡ RunStatus.canceled))
      × (find_where (λ r. r.id == other) db'.tables.runs
          ≡ find_where (λ r. r.id == other) db.tables.runs)
      × (find_where (λ o. o.run_id == other) db'.tables.outputs
          ≡ find_where (λ o. o.run_id == other) db.tables.outputs)
      × (db'.tables ≡ record db.tables { runs = db'.tables.runs; outputs = db'.tables.outputs })
mark_finished-get_run_with_output p before other db {db'} h done free apart =
    let (status, found, tables) = mark_finished_ok p db done in
    let rows = join_jobs-update p db.tables.jobs db.tables.runs in
    let stored = find_where-outputs_after p db.tables.outputs p.output refl in
    let scanned =
      scan_run_with_output-after p (join_jobs (λ r. r.id == p.run_id) db.tables.jobs db.tables.runs)
        (find_where (λ o. o.run_id == p.run_id) db.tables.outputs)
        (final_status_is_valid p.status status) (get_run_with_output_scans p.run_id db h) in
    (
      scans-get_run_with_output p.run_id db' free (rw (tables, rows, stored) scanned),
      status,
      rw tables (find_where-update_other p db.tables.runs other apart),
      rw tables (find_where-outputs_after_other p db.tables.outputs other p.output refl apart),
      rw tables refl,
    )
