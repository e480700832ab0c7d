-- ===== src/App/Armed.antt =====
-- A job has a next run exactly if it is enabled: every command keeps it so.
pub mod Drafts
pub mod Lookups
pub mod Updates
pub mod Commands
use text.Mathlib.Text.{◌==◌ as str_eq}
use jobsd.Common.{
  ℕ, suc, ◌==◌, Bool, true, false, not, ◌&&◌, ◌||◌, Option, none, some, List, [], ◌∷◌, ◌++◌, String,
  if◌then◌else◌, is_none, select, update_where, All, ◌≡◌, ◌⊎◌, inl, inr, refl, arith, subst,
  Bool-cases,
}
use jobsd.Common.Lists.Laws.{All-append, All-select, All-update_where}
use jobsd.Common.Text.{Runes}
use jobsd.Result.{Error, job_not_found, Result, ok, err, hang, Ensures}
use jobsd.Result
use jobsd.Action.{Action, pure, lift, ◌>>=◌, ◌>>◌}
use jobsd.Domain.{Time, Schedule, Job, OnFinishConfig, ConcurrencyPolicy}
use jobsd.Domain.OnFinish.{marshal_on_finish_config_json}
use jobsd.Env.{Env}
use jobsd.Sqlite.{Tables, JobRow}
use jobsd.Sqlite.Engine.{Db, exec}
use jobsd.Sqlite.Engine.Keeps.{
  Keeps, Keeps-bind, Keeps-lift, Keeps-pure, Keeps-exec, Keeps-refuse_if, Keeps-query,
}
use jobsd.Sqlite.Engine.Yields.{
  Yields, Yields-Keeps, Keeps-Yields, Yields-pure, Yields-lift, Yields-query, Yields-if,
  Yields-bind,
}
use jobsd.Sqlite.Jobs.{insert_job, update_job, has_id, has_name, first_job}
use jobsd.Sqlite.JobRecords.{
  job_row, scan_job, scan_first, get_by_id, get_by_name, create, update, validate_job,
  parse_on_finish_config_ptr,
}

-- a row that is enabled has a next run, and one that is not has none
abbrev pub IsArmedRow : JobRow → Type 0
IsArmedRow j =
    (j.enabled ≡ 1) × (is_none j.next_run_at ≡ false)
    ⊎ (j.enabled ≡ 0) × (is_none j.next_run_at ≡ true)

abbrev pub JobsAreArmed : Tables → Type 0
JobsAreArmed t = All IsArmedRow t.jobs

abbrev pub IsArmed : Job → Type 0
IsArmed job = not (is_none job.next_run_at) ≡ job.enabled

insert_job-armed :
    (row : JobRow)
    → IsArmedRow row
    → (t : Tables) → JobsAreArmed t
    → (n : ℕ) (t' : Tables) → insert_job row t ≡ ok (n, t')
    → JobsAreArmed t'
unfolding insert_job
insert_job-armed row a t h n t' e =
    let t'' : Tables = record t {
      job_seq = suc t.job_seq;
      jobs = t.jobs ++ record row { id = suc t.job_seq } ∷ [];
    } in
    let armed : JobsAreArmed t'' =
      All-append IsArmedRow t.jobs (record row { id = suc t.job_seq } ∷ []) h (a, tt) in
    let same : t''.jobs ≡ t'.jobs = ground arith in subst (All IsArmedRow) same armed

update_job-armed :
    (row : JobRow)
    → IsArmedRow row
    → (t : Tables) → JobsAreArmed t
    → (n : ℕ) (t' : Tables) → update_job row t ≡ ok (n, t')
    → JobsAreArmed t'
unfolding update_job
update_job-armed row a t h n t' e =
    let t'' : Tables = record t {
      jobs = update_where (has_id row.id) (λ j. record row { created_at = j.created_at }) t.jobs;
    } in
    let armed : JobsAreArmed t'' =
      All-update_where IsArmedRow (has_id row.id) (λ j. record row { created_at = j.created_at })
        t.jobs (λ j p q. a) h in
    let same : t''.jobs ≡ t'.jobs = ground arith in subst (All IsArmedRow) same armed

module _ (env : Env) where
  pub job_row-armed : (job : Job) → IsArmed job → Ensures IsArmedRow (job_row env job)
  unfolding job_row
  job_row-armed job a = ground arith

  pub scan_job-IsArmed : (r : JobRow) → IsArmedRow r → Ensures IsArmed (scan_job env r)
  unfolding scan_job
  scan_job-IsArmed r a = ground arith

  scan_first-IsArmed :
      (rows : List JobRow) → All IsArmedRow rows → Ensures IsArmed (scan_first env rows)
  scan_first-IsArmed [] h = tt
  scan_first-IsArmed (row ∷ rows) h = scan_job-IsArmed row h.0

  pub get_by_name-IsArmed : (name : String) → Yields JobsAreArmed IsArmed (get_by_name env name)
  unfolding get_by_name
  get_by_name-IsArmed name =
      Yields-bind {Q = All IsArmedRow} _ _
        (Yields-query _ (λ t h. All-select IsArmedRow (has_name name) t.jobs h))
        (λ rows h. Yields-lift _ (scan_first-IsArmed rows h))

  get_by_id-armed : (id : ℕ) → Keeps JobsAreArmed (get_by_id env id)
  unfolding get_by_id
  get_by_id-armed id = Keeps-bind _ _ (Keeps-query _) (λ rows. Keeps-lift _)

  pub create-armed : (job : Job) → IsArmed job → Keeps JobsAreArmed (create env job)
  unfolding create
  create-armed job a = Keeps-bind (lift (validate_job env job)) _ (Keeps-lift _) λ valid.
      Yields-Keeps _ (
        Yields-bind {Q = IsArmedRow} {R = λ j. Unit {0}} (lift (job_row env job)) _
          (Yields-lift _ (job_row-armed job a))
          λ row armed. Keeps-Yields _ (
            Keeps-bind _ _ (Keeps-exec (insert_job row) (insert_job-armed row armed))
              get_by_id-armed))

  pub update-armed : (job : Job) → IsArmed job → Keeps JobsAreArmed (update env job)
  unfolding update
  update-armed job a = Keeps-bind (lift (validate_job env job)) _ (Keeps-lift _) λ valid.
      Yields-Keeps _ (
        Yields-bind {Q = IsArmedRow} {R = λ j. Unit {0}} (lift (job_row env job)) _
          (Yields-lift _ (job_row-armed job a))
          λ row armed. Keeps-Yields _ (
            Keeps-bind _ _ (Keeps-exec (update_job row) (update_job-armed row armed)) λ affected.
              Keeps-bind _ _ (Keeps-refuse_if (affected == 0) job_not_found)
                λ found. get_by_id-armed job.id))
