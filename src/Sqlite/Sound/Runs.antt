-- ===== src/Sqlite/Sound/Runs.antt =====
-- The statements that write runs, their outputs and their deliveries keep what holds between the tables.
use jobsd.Common.{
  ℕ, suc, ◌==◌, Bool, true, false, not, Option, none, some, List, [], ◌∷◌, ◌++◌, String, is_none,
  find_where, update_where, count_where, All, ◌≡◌, refl, subst, arith, Bool-cases, inl, inr,
}
use jobsd.Common.Lists.Laws.{All-append, All-update_where, All-mono, count_where-append}
use jobsd.Common.Lists.Counting.{count_where-update_where}
use jobsd.Result.{ok}
use jobsd.Domain.{RunStatus, RunOutput, RunTriggerType, RunHookDelivery, trigger_type_is_valid}
use jobsd.Sqlite.{Stamp, Tables, RunRow, OutputRow, DeliveryRow, format_time}
use jobsd.Sqlite.Jobs.{run_of, among_runs}
use jobsd.Sqlite.Runs.{insert_run, claims, claim, starts, start}
use jobsd.Sqlite.RunResults.{
  FinishRunParams, ended, end_run, put_output, output_row, upsert_row, pending_of, canceled_at,
  cancel_pending,
}
use jobsd.Sqlite.Deliveries.{insert_delivery}
use jobsd.Sqlite.Sound.{TablesAreSound}

-- the tables after runs have been changed without a change of an id
runs_changed :
    (t : Tables) (p : RunRow → Bool) (f : RunRow → RunRow)
    → ((r : RunRow) → (f r).id ≡ r.id)
    → ((r : RunRow) → (f r).job_id ≡ r.job_id)
    → TablesAreSound t
    → TablesAreSound (record t { runs = update_where p f t.runs })
runs_changed t p f id_of job_of h = record {
  names = h.names;
  ids = h.ids;
  given = h.given;
  runs =
      All-update_where (λ r. run_of t.jobs r ≡ true) p f t.runs (λ r e g. rw (job_of r) g) h.runs;
  outputs = All-mono t.outputs (λ o there. rw (kept o.run_id) there) h.outputs;
  deliveries = All-mono t.deliveries (λ d there. rw (kept d.run_id) there) h.deliveries;
}
  where
    kept :
        (id : ℕ)
        → count_where (λ r. r.id == id) (update_where p f t.runs)
          ≡ count_where (λ r. r.id == id) t.runs
    kept id = count_where-update_where (λ r. r.id == id) p f t.runs (λ r. rw (id_of r) refl)

pub claim-TablesAreSound :
    (id : ℕ) (runner : String) (t : Tables)
    → TablesAreSound t
    → (n : ℕ) (t' : Tables) → claim id runner t ≡ ok (n, t')
    → TablesAreSound t'
unfolding claim
claim-TablesAreSound id runner t h n t' e = subst TablesAreSound (ground arith) (
    runs_changed t (claims id) (λ r. record r { runner_id = some runner }) (λ r. refl) (λ r. refl)
      h)

pub start-TablesAreSound :
    (id : ℕ) (at : Stamp) (t : Tables)
    → TablesAreSound t
    → (n : ℕ) (t' : Tables) → start id at t ≡ ok (n, t')
    → TablesAreSound t'
unfolding start
start-TablesAreSound id at t h n t' e = subst TablesAreSound (ground arith) (
    runs_changed t (starts id) (λ r. record r { status = RunStatus.running; started_at = some at })
      (λ r. refl) (λ r. refl) h)

pub end_run-TablesAreSound :
    (p : FinishRunParams) (t : Tables)
    → TablesAreSound t
    → (n : ℕ) (t' : Tables) → end_run p t ≡ ok (n, t')
    → TablesAreSound t'
unfolding end_run
end_run-TablesAreSound p t h n t' e =
    subst TablesAreSound (ground arith)
      (runs_changed t (λ r. r.id == p.run_id) (ended p) (λ r. refl) (λ r. refl) h)

pub cancel_pending-TablesAreSound :
    (job_id : ℕ) (at : Stamp) (t : Tables)
    → TablesAreSound t
    → (n : Unit {0}) (t' : Tables) → cancel_pending job_id at t ≡ ok (n, t')
    → TablesAreSound t'
unfolding cancel_pending
cancel_pending-TablesAreSound job_id at t h n t' e =
    subst TablesAreSound (ground arith)
      (runs_changed t (pending_of job_id) (canceled_at at) (λ r. refl) (λ r. refl) h)

-- a row that is found is there
found_there :
    {A : Type 0} (p : A → Bool) (xs : List A)
    → is_none (find_where p xs) ≡ false
    → not (count_where p xs == 0) ≡ true
unfolding find_where count_where
found_there p [] e = cc
found_there p (x ∷ xs) e = let rest = found_there p xs in ground arith

-- one more run leaves every reference to a run as it was
run_added :
    (id : ℕ) (runs : List RunRow) (new : RunRow)
    → among_runs runs id ≡ true
    → among_runs (runs ++ new ∷ []) id ≡ true
run_added id runs new there =
    let split = count_where-append (λ r. r.id == id) runs (new ∷ []) in ground arith

pub insert_run-TablesAreSound :
    (job_id : ℕ) (kind : RunTriggerType) (due : Option Stamp) (at : Stamp)
    → trigger_type_is_valid kind ≡ true
    → (t : Tables) → TablesAreSound t
    → (id : ℕ) (t' : Tables) → insert_run job_id kind due at t ≡ ok (id, t')
    → TablesAreSound t'
unfolding insert_run
insert_run-TablesAreSound job_id kind due at known t h id t' e =
    let row : RunRow = record {
      id = suc t.run_seq;
      job_id = job_id;
      trigger_type = kind;
      status = RunStatus.pending;
      scheduled_for = due;
      queued_at = at;
      started_at = none;
      finished_at = none;
      exit_code = none;
      error_message = none;
      runner_id = none;
    } in
    let after : Tables = record t { run_seq = suc t.run_seq; runs = t.runs ++ row ∷ [] } in
    let there = found_there (λ j. j.id == job_id) t.jobs (ground arith) in
    let sound : TablesAreSound after = record {
      names = h.names;
      ids = h.ids;
      given = h.given;
      runs = All-append (λ r. run_of t.jobs r ≡ true) t.runs (row ∷ []) h.runs (there, tt);
      outputs = All-mono t.outputs (λ o. run_added o.run_id t.runs row) h.outputs;
      deliveries = All-mono t.deliveries (λ d. run_added d.run_id t.runs row) h.deliveries;
    } in
    subst TablesAreSound (ground arith) sound

upsert_row-there :
    (runs : List RunRow) (new : OutputRow) (os : List OutputRow)
    → among_runs runs new.run_id ≡ true
    → All (λ o. among_runs runs o.run_id ≡ true) os
    → All (λ o. among_runs runs o.run_id ≡ true) (upsert_row new os)
unfolding upsert_row
upsert_row-there runs new [] there h = (there, tt)
upsert_row-there runs new (o ∷ os) there h =
    let rest = upsert_row-there runs new os there h.1 in
    elim (Bool-cases (o.run_id == new.run_id)) [
      | inl e ↦ rw e (there, h.1)
      | inr e ↦ rw e (h.0, rest)
    ]

pub put_output-TablesAreSound :
    (id : ℕ) (o : RunOutput) (t : Tables)
    → TablesAreSound t
    → (u : Unit {0}) (t' : Tables) → put_output id o t ≡ ok (u, t')
    → TablesAreSound t'
unfolding put_output
put_output-TablesAreSound id o t h u t' e =
    let after : Tables = record t { outputs = upsert_row (output_row id o) t.outputs } in
    let sound : TablesAreSound after = record {
      names = h.names;
      ids = h.ids;
      given = h.given;
      runs = h.runs;
      outputs = upsert_row-there t.runs (output_row id o) t.outputs (ground arith) h.outputs;
      deliveries = h.deliveries;
    } in
    subst TablesAreSound (ground arith) sound

pub insert_delivery-TablesAreSound :
    (d : RunHookDelivery) (t : Tables)
    → TablesAreSound t
    → (id : ℕ) (t' : Tables) → insert_delivery d t ≡ ok (id, t')
    → TablesAreSound t'
unfolding insert_delivery
insert_delivery-TablesAreSound d t h id t' e =
    let row : DeliveryRow = record {
      id = suc t.delivery_seq;
      run_id = d.run_id;
      event = d.event;
      sink_type = d.sink_type;
      attempt = d.attempt;
      status = d.status;
      http_status_code = d.http_status_code;
      error_message = d.error_message;
      started_at = format_time d.started_at;
      finished_at = format_time d.finished_at;
    } in
    let after : Tables = record t {
      delivery_seq = suc t.delivery_seq;
      deliveries = t.deliveries ++ row ∷ [];
    } in
    let there = found_there (λ r. r.id == d.run_id) t.runs (ground arith) in
    let sound : TablesAreSound after = record {
      names = h.names;
      ids = h.ids;
      given = h.given;
      runs = h.runs;
      outputs = h.outputs;
      deliveries =
          All-append (λ x. among_runs t.runs x.run_id ≡ true) t.deliveries (row ∷ []) h.deliveries
            (there, tt);
    } in
    subst TablesAreSound (ground arith) sound
