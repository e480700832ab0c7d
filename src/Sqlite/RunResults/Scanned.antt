-- ===== src/Sqlite/RunResults/Scanned.antt =====
-- The columns of a run and of its output after MarkFinished has written them.
use jobsd.Common.{
  ℕ, ◌==◌, ◌*◌, ◌/◌, true, false, Option, none, some, List, [], ◌∷◌, map, find_where, update_where,
  ◌≡◌, inl, inr, refl, ap, ◌∙◌, arith, Bool-cases,
}
use jobsd.Result.Parts.{bind_parts}
use jobsd.Result.{ok}
use jobsd.Domain.{Time, Run, RunOutput, run_status_is_valid}
use jobsd.Sqlite.{JobRow, RunRow, OutputRow}
use jobsd.Sqlite.Runs.{Joined, join_jobs, hydrate_run_base}
use jobsd.Sqlite.RunResults.{
  FinishRunParams, ended, output_row, upsert_row, with_output, scan_run_with_output,
}
use jobsd.Sqlite.RunResults.Finishing.{outputs_after}

-- a time without its fraction of a second
abbrev pub whole_seconds : Time → Time
whole_seconds t = t / 1_000_000_000 * 1_000_000_000

-- the output that is shown: the one that was given, or else the one that was there
abbrev pub shown_output : Option RunOutput → Option RunOutput → Option RunOutput
shown_output none old = old
shown_output (some o) old = some (record o { updated_at = whole_seconds o.updated_at })

-- a run as it is shown before and after its end
abbrev pub shown_after : FinishRunParams → Run → Run
shown_after p before = record before {
  status = p.status;
  finished_at = some (whole_seconds p.finished_at);
  exit_code = p.exit_code;
  error_message = p.error_message;
  runner_id = none;
  output = shown_output p.output before.output;
}

-- without its output
abbrev ended_run : FinishRunParams → Run → Run
ended_run p before = record before {
  status = p.status;
  finished_at = some (whole_seconds p.finished_at);
  exit_code = p.exit_code;
  error_message = p.error_message;
  runner_id = none;
}

abbrev pub end_joined : FinishRunParams → Joined → Joined
end_joined p row = (ended p row.0, row.1)

pub join_jobs-update :
    (p : FinishRunParams) (jobs : List JobRow) (rs : List RunRow)
    → join_jobs (λ r. r.id == p.run_id) jobs (update_where (λ r. r.id == p.run_id) (ended p) rs)
      ≡ map (end_joined p) (join_jobs (λ r. r.id == p.run_id) jobs rs)
unfolding join_jobs update_where
join_jobs-update p jobs [] = refl
join_jobs-update p jobs (r ∷ rs) =
    let rest = join_jobs-update p jobs rs in
    elim (Bool-cases (r.id == p.run_id)) [ inl e ↦ ground (arith, e) | inr e ↦ ground (arith, e) ]

find_where-upsert :
    (new : OutputRow) (os : List OutputRow)
    → find_where (λ o. o.run_id == new.run_id) (upsert_row new os) ≡ some new
unfolding find_where upsert_row
find_where-upsert new [] = ground arith
find_where-upsert new (o ∷ os) = let rest = find_where-upsert new os in ground arith

pub find_where-upsert_other :
    (new : OutputRow) (os : List OutputRow) (other : ℕ)
    → (other == new.run_id) ≡ false
    → find_where (λ o. o.run_id == other) (upsert_row new os)
      ≡ find_where (λ o. o.run_id == other) os
unfolding find_where upsert_row
find_where-upsert_other new [] other apart = ground arith
find_where-upsert_other new (o ∷ os) other apart =
    let rest = find_where-upsert_other new os other apart in ground arith

pub find_where-update_other :
    (p : FinishRunParams) (rs : List RunRow) (other : ℕ)
    → (other == p.run_id) ≡ false
    → find_where (λ r. r.id == other) (update_where (λ r. r.id == p.run_id) (ended p) rs)
      ≡ find_where (λ r. r.id == other) rs
unfolding find_where update_where
find_where-update_other p [] other apart = refl
find_where-update_other p (r ∷ rs) other apart =
    let rest = find_where-update_other p rs other apart in ground arith

-- the columns of the run
hydrate_ended :
    (p : FinishRunParams) (row : Joined) {before : Run}
    → run_status_is_valid p.status ≡ true
    → hydrate_run_base row ≡ ok before
    → hydrate_run_base (end_joined p row) ≡ ok (ended_run p before)
unfolding hydrate_run_base
hydrate_ended p row {before} known h = ground arith

-- the output of a run whose end has been written
old_output :
    (p : FinishRunParams) (o : Option OutputRow) (base : Run) {before : Run}
    → with_output o base ≡ ok before
    → with_output o (ended_run p base) ≡ ok (ended_run p before)
unfolding with_output
old_output p none base {before} h = ground arith
old_output p (some o) base {before} h = ground arith

new_output :
    (id : ℕ) (o : RunOutput) (base : Run)
    → with_output (some (output_row id o)) base
      ≡ ok (record base { output = some (record o { updated_at = whole_seconds o.updated_at }) })
unfolding with_output
new_output id o base = ground arith

-- the output is all that with_output sets
with_output-base :
    (old : Option OutputRow) (base : Run) (x : Option RunOutput) {before : Run}
    → with_output old base ≡ ok before
    → record base { output = x } ≡ record before { output = x }
unfolding with_output
with_output-base none base x {before} h = ground arith
with_output-base (some o) base x {before} h = ground arith

-- the row of the output after the end
abbrev pub stored_output : ℕ → Option RunOutput → Option OutputRow → Option OutputRow
stored_output id none old = old
stored_output id (some o) old = some (output_row id o)

with_stored_output :
    (p : FinishRunParams) (given : Option RunOutput) (old : Option OutputRow) (base : Run)
    {before : Run}
    → with_output old base ≡ ok before
    → with_output (stored_output p.run_id given old) (ended_run p base)
      ≡ ok (record (ended_run p before) { output = shown_output given before.output })
with_stored_output p none old base {before} h = old_output p old base h
with_stored_output p (some o) old base {before} h =
    new_output p.run_id o (ended_run p base)
    ∙ ap (λ r. ok (ended_run p r))
        (with_output-base old base (some (record o { updated_at = whole_seconds o.updated_at })) h)

pub find_where-outputs_after :
    (p : FinishRunParams) (os : List OutputRow) (given : Option RunOutput)
    → p.output ≡ given
    → find_where (λ o. o.run_id == p.run_id) (outputs_after p os)
      ≡ stored_output p.run_id given (find_where (λ o. o.run_id == p.run_id) os)
find_where-outputs_after p os none h = rw h refl
find_where-outputs_after p os (some o) h = rw h (find_where-upsert (output_row p.run_id o) os)

-- what a scan makes of the rows after the end has been written
pub scan_run_with_output-after :
    (p : FinishRunParams) (rows : List Joined) (old : Option OutputRow) {before : Run}
    → run_status_is_valid p.status ≡ true
    → scan_run_with_output rows old ≡ ok before
    → scan_run_with_output (map (end_joined p) rows) (stored_output p.run_id p.output old)
      ≡ ok (shown_after p before)
scan_run_with_output-after p [] old {before} known h = ground arith
scan_run_with_output-after p (row ∷ rows) old {before} known h =
    let (base, first, second) = bind_parts (hydrate_run_base row) (with_output old) h in
    rw (hydrate_ended p row known first) (with_stored_output p p.output old base second)
