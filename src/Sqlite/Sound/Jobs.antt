-- ===== src/Sqlite/Sound/Jobs.antt =====
-- The statements that write jobs keep what holds between the tables.
use jobsd.Common.{
  ℕ, suc, ◌≤◌, ◌==◌, true, not, Option, List, [], ◌∷◌, ◌++◌, String, select, update_where,
  count_where, All, ◌≡◌, refl, subst, arith, Bool-cases, inl, inr,
}
use jobsd.Common.Lists.Laws.{All-append, All-select, All-mono, count_where-append}
use jobsd.Common.Lists.Counting.{
  update_where_none, update_where_agree, Differ, Differ-append, Differ-select, Differ-update_where,
}
use jobsd.Result.{ok}
use jobsd.Domain.{RunStatus}
use jobsd.Sqlite.{Stamp, Tables, JobRow, RunRow, OutputRow, DeliveryRow}
use jobsd.Sqlite.Jobs.{
  has_id, has_name, run_of, among_runs, insert_job, update_job, delete_job, set_next_run,
  set_last_run,
}
use jobsd.Sqlite.Sound.{same_id, same_name, TablesAreSound}
use jobsd.Sqlite.Sound.Changes.{names_swap, ids_swap, references_left, jobs_changed, names_updated}

-- an id that has not been given out is no job's
not_given :
    (id seq : ℕ) (jobs : List JobRow)
    → suc seq ≤ id
    → All (λ j. j.id ≤ seq) jobs
    → count_where (has_id id) jobs ≡ 0
unfolding count_where
not_given id seq [] above h = refl
not_given id seq (j ∷ jobs) above h =
    let rest = not_given id seq jobs above h.1 in let here = h.0 in ground arith

pub insert_job-TablesAreSound :
    (row : JobRow) (t : Tables)
    → TablesAreSound t
    → (id : ℕ) (t' : Tables) → insert_job row t ≡ ok (id, t')
    → TablesAreSound t'
unfolding insert_job
insert_job-TablesAreSound row t h id t' e =
    let new : JobRow = record row { id = suc t.job_seq } in
    let after : Tables = record t { job_seq = suc t.job_seq; jobs = t.jobs ++ new ∷ [] } in
    let free : count_where (has_name row.name) t.jobs ≡ 0 = ground arith in
    let sound : TablesAreSound after = record {
      names = Differ-append same_name t.jobs new names_swap free h.names;
      ids =
          Differ-append same_id t.jobs new ids_swap
            (not_given (suc t.job_seq) t.job_seq t.jobs (omega arith) h.given) h.ids;
      given =
          All-append (λ j. j.id ≤ suc t.job_seq) t.jobs (new ∷ [])
            (All-mono t.jobs (λ j g. omega (arith, g)) h.given) (omega arith, tt);
      runs =
          All-mono t.runs
            (λ r there.
              ground (arith, count_where-append (has_id r.job_id) t.jobs (new ∷ []), there))
            h.runs;
      outputs = h.outputs;
      deliveries = h.deliveries;
    } in
    subst TablesAreSound (ground arith) sound

written :
    (row j : JobRow)
    → has_id row.id j ≡ true
    → record row { created_at = j.created_at } ≡ record row { id = j.id; created_at = j.created_at }
written row j here = ground arith

pub update_job-TablesAreSound :
    (row : JobRow) (t : Tables)
    → TablesAreSound t
    → (n : ℕ) (t' : Tables) → update_job row t ≡ ok (n, t')
    → TablesAreSound t'
unfolding update_job
update_job-TablesAreSound row t h n t' e =
    let f : JobRow → JobRow = λ j. record row { created_at = j.created_at } in
    let g : JobRow → JobRow = λ j. record row { id = j.id; created_at = j.created_at } in
    let same = update_where_agree (has_id row.id) f g t.jobs (λ j here. written row j here) in
    let names : Differ same_name (update_where (has_id row.id) g t.jobs) =
      elim (Bool-cases (count_where (has_id row.id) t.jobs == 0)) [
        | inl absent ↦ rw (update_where_none (has_id row.id) g t.jobs (ground arith)) h.names
        | inr there ↦
            names_updated row.id row g (λ j. refl) refl t.jobs h.ids h.names (ground arith)
      ] in
    let sound = jobs_changed t (has_id row.id) g (λ j. refl) names h in
    subst TablesAreSound (ground arith) sound

pub set_next_run-TablesAreSound :
    (id : ℕ) (next : Option Stamp) (at : Stamp) (t : Tables)
    → TablesAreSound t
    → (n : ℕ) (t' : Tables) → set_next_run id next at t ≡ ok (n, t')
    → TablesAreSound t'
unfolding set_next_run
set_next_run-TablesAreSound id next at t h n t' e =
    let f : JobRow → JobRow = λ j. record j { next_run_at = next; updated_at = at } in
    let names =
      Differ-update_where same_name (has_id id) f t.jobs (λ i j. refl) (λ i j. refl) h.names in
    subst TablesAreSound (ground arith) (jobs_changed t (has_id id) f (λ j. refl) names h)

pub set_last_run-TablesAreSound :
    (id : ℕ) (last : Option Stamp) (status : Option RunStatus) (at : Stamp) (t : Tables)
    → TablesAreSound t
    → (n : ℕ) (t' : Tables) → set_last_run id last status at t ≡ ok (n, t')
    → TablesAreSound t'
unfolding set_last_run
set_last_run-TablesAreSound id last status at t h n t' e =
    let f : JobRow → JobRow =
      λ j. record j { last_run_at = last; last_run_status = status; updated_at = at } in
    let names =
      Differ-update_where same_name (has_id id) f t.jobs (λ i j. refl) (λ i j. refl) h.names in
    subst TablesAreSound (ground arith) (jobs_changed t (has_id id) f (λ j. refl) names h)

pub delete_job-TablesAreSound :
    (name : String) (t : Tables)
    → TablesAreSound t
    → (n : ℕ) (t' : Tables) → delete_job name t ≡ ok (n, t')
    → TablesAreSound t'
unfolding delete_job
delete_job-TablesAreSound name t h n t' e =
    let gone_jobs = select (has_name name) t.jobs in
    let gone_runs = select (run_of gone_jobs) t.runs in
    let after : Tables = record t {
      jobs = select (λ j. not (has_name name j)) t.jobs;
      runs = select (λ r. not (run_of gone_jobs r)) t.runs;
      outputs = select (λ o. not (among_runs gone_runs o.run_id)) t.outputs;
      deliveries = select (λ d. not (among_runs gone_runs d.run_id)) t.deliveries;
    } in
    let sound : TablesAreSound after = record {
      names = Differ-select same_name (λ j. not (has_name name j)) t.jobs h.names;
      ids = Differ-select same_id (λ j. not (has_name name j)) t.jobs h.ids;
      given = All-select (λ j. j.id ≤ t.job_seq) (λ j. not (has_name name j)) t.jobs h.given;
      runs = references_left (λ (r : RunRow). has_id r.job_id) (has_name name) t.jobs t.runs h.runs;
      outputs =
          references_left (λ (o : OutputRow) (r : RunRow). r.id == o.run_id) (run_of gone_jobs)
            t.runs t.outputs h.outputs;
      deliveries =
          references_left (λ (d : DeliveryRow) (r : RunRow). r.id == d.run_id) (run_of gone_jobs)
            t.runs t.deliveries h.deliveries;
    } in
    subst TablesAreSound (ground arith) sound
