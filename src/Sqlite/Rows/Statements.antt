-- ===== src/Sqlite/Rows/Statements.antt =====
-- The statements that write job_runs keep its rows sane.
use jobsd.Common.{
  ℕ, suc, ◌≤◌, ◌==◌, Bool, true, false, ◌||◌, not, Option, none, some, List, [], ◌∷◌, ◌++◌, String,
  update_where, select, All, ◌≡◌, refl, subst, arith, Bool-cases, inl, inr,
}
use jobsd.Common.Lists.Laws.{All-append, All-select, All-update_where}
use mathlib.Core.Path.{subst₂}
use jobsd.Result.{ok}
use jobsd.Domain.{
  RunOutput, RunStatus, RunTriggerType, run_status_is_valid, trigger_type_is_valid, is_pending,
  is_running,
}
use jobsd.Sqlite.{Stamp, Tables, RunRow}
use jobsd.Sqlite.Runs.{insert_run, claims, claim, starts, start}
use jobsd.Sqlite.RunResults.{
  FinishRunParams, ended, end_run, put_output, pending_of, canceled_at, cancel_pending,
}
use jobsd.Sqlite.Jobs.{has_name, run_of, among_runs, delete_job}
use jobsd.Sqlite.Rows.{IsSane, Ascend, RunsAreSane}

Ascend-append :
    (low : ℕ) (rs : List RunRow) (high : ℕ) (r : RunRow)
    → r.id ≡ suc high
    → Ascend low rs high
    → Ascend low (rs ++ r ∷ []) (suc high)
Ascend-append low [] high r e h = (omega arith, omega arith)
Ascend-append low (s ∷ rs) high r e h = (h.0, Ascend-append s.id rs high r e h.1)

Ascend-lower :
    (low low' : ℕ) (rs : List RunRow) (high : ℕ)
    → low' ≤ low
    → Ascend low rs high
    → Ascend low' rs high
Ascend-lower low low' [] high e h = omega arith
Ascend-lower low low' (r ∷ rs) high e h = (omega arith, h.1)

Ascend-select :
    (p : RunRow → Bool) (low : ℕ) (rs : List RunRow) (high : ℕ)
    → Ascend low rs high
    → Ascend low (select p rs) high
unfolding select
Ascend-select p low [] high h = h
Ascend-select p low (r ∷ rs) high h = elim (Bool-cases (p r)) [
  | inl e ↦ rw e (h.0, Ascend-select p r.id rs high h.1)
  | inr e ↦ rw e (Ascend-select p low rs high (Ascend-lower r.id low rs high (omega arith) h.1))
]

Ascend-update_where :
    (p : RunRow → Bool) (f : RunRow → RunRow) (low : ℕ) (rs : List RunRow) (high : ℕ)
    → ((r : RunRow) → (f r).id ≡ r.id)
    → Ascend low rs high
    → Ascend low (update_where p f rs) high
unfolding update_where
Ascend-update_where p f low [] high same h = h
Ascend-update_where p f low (r ∷ rs) high same h = elim (Bool-cases (p r)) [
  | inl e ↦ rw (e, same) (h.0, Ascend-update_where p f r.id rs high same h.1)
  | inr e ↦ rw e (h.0, Ascend-update_where p f r.id rs high same h.1)
]

-- An UPDATE keeps the runs sane if it keeps ids and takes sane rows to sane rows.
update_keeps :
    (p : RunRow → Bool) (f : RunRow → RunRow) (t : Tables)
    → ((r : RunRow) → (f r).id ≡ r.id)
    → ((r : RunRow) → p r ≡ true → IsSane r → IsSane (f r))
    → RunsAreSane t
    → RunsAreSane (record t { runs = update_where p f t.runs })
update_keeps p f t same keep h = record {
  rows = All-update_where IsSane p f t.runs keep h.rows;
  ids = Ascend-update_where p f 0 t.runs t.run_seq same h.ids;
}

pub insert_run-sane :
    (job_id : ℕ) (trigger : RunTriggerType) (scheduled_for : Option Stamp) (queued_at : Stamp)
    → trigger_type_is_valid trigger ≡ true
    → (t : Tables) → RunsAreSane t
    → (id : ℕ) (t' : Tables) → insert_run job_id trigger scheduled_for queued_at t ≡ ok (id, t')
    → RunsAreSane t'
unfolding insert_run
insert_run-sane job_id trigger scheduled_for queued_at known t h id t' e =
    let row : RunRow = record {
      id = suc t.run_seq;
      job_id = job_id;
      trigger_type = trigger;
      status = RunStatus.pending;
      scheduled_for = scheduled_for;
      queued_at = queued_at;
      started_at = none;
      finished_at = none;
      exit_code = none;
      error_message = none;
      runner_id = none;
    } in
    let t'' : Tables = record t { run_seq = suc t.run_seq; runs = t.runs ++ row ∷ [] } in
    let sane : RunsAreSane t'' = record {
      rows = All-append IsSane t.runs (row ∷ []) h.rows (ground arith, tt);
      ids = Ascend-append 0 t.runs t.run_seq row refl h.ids;
    } in
    subst RunsAreSane (ground arith) sane

pub claim-sane :
    (id : ℕ) (runner : String) (t : Tables)
    → RunsAreSane t
    → (n : ℕ) (t' : Tables) → claim id runner t ≡ ok (n, t')
    → RunsAreSane t'
unfolding claim
claim-sane id runner t h n t' e = subst RunsAreSane (ground arith) (
    update_keeps (claims id) (λ r. record r { runner_id = some runner }) t (λ r. refl)
      (λ r p s. ground arith) h)

pub start-sane :
    (id : ℕ) (at : Stamp) (t : Tables)
    → RunsAreSane t
    → (n : ℕ) (t' : Tables) → start id at t ≡ ok (n, t')
    → RunsAreSane t'
unfolding start
start-sane id at t h n t' e = subst RunsAreSane (ground arith) (
    update_keeps (starts id) (λ r. record r { status = RunStatus.running; started_at = some at }) t
      (λ r. refl) (λ r p s. ground arith) h)

pub end_run-sane :
    (p : FinishRunParams)
    → run_status_is_valid p.status ≡ true
    → (is_pending p.status || is_running p.status) ≡ false
    → (t : Tables) → RunsAreSane t
    → (n : ℕ) (t' : Tables) → end_run p t ≡ ok (n, t')
    → RunsAreSane t'
unfolding end_run
end_run-sane p valid final t h n t' e =
    subst RunsAreSane (ground arith)
      (update_keeps (λ r. r.id == p.run_id) (ended p) t (λ r. refl) (λ r q s. ground arith) h)

pub cancel_pending-sane :
    (job_id : ℕ) (at : Stamp) (t : Tables)
    → RunsAreSane t
    → (u : Unit {0}) (t' : Tables) → cancel_pending job_id at t ≡ ok (u, t')
    → RunsAreSane t'
unfolding cancel_pending
cancel_pending-sane job_id at t h u t' e =
    subst RunsAreSane (ground arith)
      (update_keeps (pending_of job_id) (canceled_at at) t (λ r. refl) (λ r p s. ground arith) h)

pub delete_job-sane :
    (name : String) (t : Tables)
    → RunsAreSane t
    → (n : ℕ) (t' : Tables) → delete_job name t ≡ ok (n, t')
    → RunsAreSane t'
unfolding delete_job
delete_job-sane name t h n t' e =
    let gone = select (has_name name) t.jobs in
    let gone_runs = select (run_of gone) t.runs in
    let t'' : Tables = record t {
      jobs = select (λ j. not (has_name name j)) t.jobs;
      runs = select (λ r. not (run_of gone r)) t.runs;
      outputs = select (λ o. not (among_runs gone_runs o.run_id)) t.outputs;
      deliveries = select (λ d. not (among_runs gone_runs d.run_id)) t.deliveries;
    } in
    let sane : RunsAreSane t'' = record {
      rows = All-select IsSane (λ r. not (run_of gone r)) t.runs h.rows;
      ids = Ascend-select (λ r. not (run_of gone r)) 0 t.runs t.run_seq h.ids;
    } in
    subst RunsAreSane (ground arith) sane

pub put_output-sane :
    (id : ℕ) (o : RunOutput) (t : Tables)
    → RunsAreSane t
    → (u : Unit {0}) (t' : Tables) → put_output id o t ≡ ok (u, t')
    → RunsAreSane t'
unfolding put_output
put_output-sane id o t h u t' e = record {
  rows = subst (λ rs. All IsSane rs) (ground arith) h.rows;
  ids = subst₂ (λ rs n. Ascend 0 rs n) (ground arith) (ground arith) h.ids;
}
