-- ===== src/Sqlite/RunResults/Finishing.antt =====
-- MarkFinished is all or nothing.
use jobsd.Common.{
  ℕ, suc, ◌==◌, false, none, some, List, update_where, count_where, ◌≡◌, ◌≢◌, ◌⊎◌, arith, refl,
  Option,
}
use jobsd.Result.{Error, ok, err}
use jobsd.Domain.{RunOutput, RunStatus}
use jobsd.Sqlite.{OutputRow}
use jobsd.Sqlite.Engine.{Db, tick}
use jobsd.Common.Lists.Counting.{count_where-update_where}
use jobsd.Sqlite.RunResults.{
  FinishRunParams, ended, output_row, upsert_row, mark_finished, is_undated, store_end, end_run,
  upsert_output,
}

-- the outputs after MarkFinished
abbrev pub outputs_after : FinishRunParams → List OutputRow → List OutputRow
outputs_after p outputs = elim p.output [
  | none ↦ outputs
  | some o ↦ upsert_row (output_row p.run_id o) outputs
]

-- A MarkFinished that fails, wherever it does, leaves every table as it was.
pub mark_finished_atomic :
    (p : FinishRunParams) (db : Db) {e : Error}
    → (mark_finished p db).0 ≡ err e
    → (mark_finished p db).1.tables ≡ db.tables
unfolding mark_finished
mark_finished_atomic p db h = ground arith

-- A MarkFinished that succeeds has found the run, has written its end, and has stored the output if there is
-- one, over an earlier one; nothing else has changed. The status that it wrote is a final one.
pub mark_finished_ok :
    (p : FinishRunParams) (db : Db) {db' : Db}
    → mark_finished p db ≡ (ok tt, db')
    → ((p.status ≡ RunStatus.succeeded)
        ⊎ (p.status ≡ RunStatus.failed)
        ⊎ (p.status ≡ RunStatus.canceled))
      × (count_where (λ r. r.id == p.run_id) db.tables.runs ≢ 0)
      × (db'.tables ≡ record db.tables {
        runs = update_where (λ r. r.id == p.run_id) (ended p) db.tables.runs;
        outputs = outputs_after p db.tables.outputs;
      })
unfolding mark_finished
mark_finished_ok p db h = (ground arith, ground arith, ground arith)

upsert_output_succeeds :
    (id : ℕ) (o : Option RunOutput) (db : Db)
    → count_where (λ r. r.id == id) db.tables.runs ≢ 0
    → db.refuses db.statements ≡ false
    → ((upsert_output id o db).0 ≡ ok tt) × ((upsert_output id o db).1.refuses ≡ db.refuses)
unfolding upsert_output
upsert_output_succeeds id none db found free = (refl, refl)
upsert_output_succeeds id (some o) db found free = (ground arith, ground arith)

store_end_succeeds :
    (p : FinishRunParams) (db : Db)
    → count_where (λ r. r.id == p.run_id) db.tables.runs ≢ 0
    → ((n : ℕ) → db.refuses n ≡ false)
    → ((store_end p db).0 ≡ ok tt) × ((store_end p db).1.refuses ≡ db.refuses)
unfolding store_end end_run
store_end_succeeds p db found never =
    let same =
      count_where-update_where (λ r. r.id == p.run_id) (λ r. r.id == p.run_id) (ended p)
        db.tables.runs (λ r. refl) in
    let after : Db = record (tick db) {
      tables = record db.tables {
        runs = update_where (λ r. r.id == p.run_id) (ended p) db.tables.runs;
      };
    } in
    let last =
      upsert_output_succeeds p.run_id p.output after (ground arith) (never (suc db.statements)) in
    let free = never db.statements in (ground arith, ground arith)

-- MarkFinished succeeds if the status is final, the output is dated, the run is there and the engine refuses
-- none of its statements, and the engine goes on as before.
pub mark_finished_succeeds :
    (p : FinishRunParams) (db : Db)
    → (p.status ≡ RunStatus.succeeded)
      ⊎ (p.status ≡ RunStatus.failed)
      ⊎ (p.status ≡ RunStatus.canceled)
    → is_undated p.output ≡ false
    → count_where (λ r. r.id == p.run_id) db.tables.runs ≢ 0
    → ((n : ℕ) → db.refuses n ≡ false)
    → ((mark_finished p db).0 ≡ ok tt) × ((mark_finished p db).1.refuses ≡ db.refuses)
unfolding mark_finished
mark_finished_succeeds p db status dated found never =
    let body = store_end_succeeds p (tick db) found never in
    let begun = never db.statements in
    let ended_well = never (store_end p (tick db)).1.statements in (ground arith, ground arith)
