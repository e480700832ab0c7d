-- ===== src/Sqlite/Jobs.antt =====
-- internal/sqlite/jobs_store.go
pub mod Due
use Prim.Native.String.{compare as compare_text}
use Prim.Native.Nat.{Ordering}
use text.Mathlib.Text.{◌==◌ as str_eq}
use jobsd.Common.{
  ℕ, zero, suc, ltb, leb, ◌==◌, Bool, true, false, not, ◌&&◌, ◌||◌, Option, none, some, List, [],
  ◌∷◌, ◌++◌, String, if◌then◌else◌, is_none, select, find_where, update_where, count_where, sort_by,
}
use jobsd.Result.{Error, constraint, job_not_found, invalid, Result, ok, err, hang, ◌>>=◌ as bind}
use jobsd.Action.{Action, pure, lift, ◌>>=◌, ◌>>◌, refuse_if}
use jobsd.Domain.{
  Time, Job, RunStatus, ConcurrencyPolicy, OnFinishConfig, schedule_kind_is_valid, policy_is_valid,
  run_status_is_valid,
}
use jobsd.Domain.OnFinish.{
  normalize_on_finish_config, parse_on_finish_config_json, marshal_on_finish_config_json,
}
use jobsd.Env.{Env}
use jobsd.Sqlite.{
  Stamp, Tables, JobRow, RunRow, OutputRow, DeliveryRow, format_time, format_time_ptr, parse_time,
  parse_time_ptr, bool_to_int,
}
use jobsd.Sqlite.Engine.{Db, exec, query}
use jobsd.Sqlite.RunResults.{int_to_bool}

abbrev pub default_timezone : String → String
default_timezone timezone = if str_eq timezone "" then "Local" else timezone

abbrev pub default_concurrency_policy : ConcurrencyPolicy → ConcurrencyPolicy
default_concurrency_policy ConcurrencyPolicy.unset = ConcurrencyPolicy.forbid
default_concurrency_policy policy = policy

abbrev pub bad_last_status : Option RunStatus → Bool
bad_last_status none = false
bad_last_status (some s) = not (run_status_is_valid s)

-- The CHECK constraints of the table.
abbrev pub schema_accepts_job : JobRow → Bool
schema_accepts_job row = leb row.enabled 1 && policy_is_valid row.concurrency_policy

abbrev pub has_name : String → JobRow → Bool
has_name name j = str_eq j.name name

-- the name of the row belongs to another job
abbrev pub takes_name : JobRow → JobRow → Bool
takes_name row j = not (j.id == row.id) && str_eq j.name row.name

-- INSERT INTO jobs
unfoldable pub insert_job : JobRow → Tables → Result (ℕ × Tables)
insert_job row t =
    if not (schema_accepts_job row) || not (count_where (has_name row.name) t.jobs == 0)
    then err constraint
    else ok (
      suc t.job_seq,
      record t { job_seq = suc t.job_seq; jobs = t.jobs ++ record row { id = suc t.job_seq } ∷ [] },
    )

abbrev pub has_id : ℕ → JobRow → Bool
has_id id j = j.id == id

-- UPDATE jobs SET … WHERE id = ?; created_at is not among the columns
unfoldable pub update_job : JobRow → Tables → Result (ℕ × Tables)
update_job row t =
    let affected = count_where (has_id row.id) t.jobs in
    if not (affected == 0)
      && (not (schema_accepts_job row) || not (count_where (takes_name row) t.jobs == 0))
    then err constraint
    else ok (
      affected,
      record t {
        jobs = update_where (has_id row.id) (λ j. record row { created_at = j.created_at }) t.jobs;
      },
    )

-- ON DELETE CASCADE: what refers to a deleted row goes with it
abbrev pub run_of : List JobRow → RunRow → Bool
run_of jobs r = not (count_where (has_id r.job_id) jobs == 0)

abbrev pub among_runs : List RunRow → ℕ → Bool
among_runs runs id = not (count_where (λ r. r.id == id) runs == 0)

unfoldable pub delete_job : String → Tables → Result (ℕ × Tables)
delete_job name t =
    let gone_jobs = select (has_name name) t.jobs in
    let gone_runs = select (run_of gone_jobs) t.runs in
    ok (
      count_where (has_name name) t.jobs,
      record t {
        jobs = select (λ j. not (has_name name j)) t.jobs;
        runs = select (λ r. not (run_of gone_jobs r)) t.runs;
        outputs = select (λ o. not (among_runs gone_runs o.run_id)) t.outputs;
        deliveries = select (λ d. not (among_runs gone_runs d.run_id)) t.deliveries;
      },
    )

-- ORDER BY name ASC
abbrev pub named_before : JobRow → JobRow → Bool
named_before i j = elim (compare_text i.name j.name) [ Ordering.gt ↦ false | _ ↦ true ]

-- enabled = 1 AND next_run_at IS NOT NULL AND next_run_at <= ?
abbrev pub stamp_due : Stamp → Option Stamp → Bool
stamp_due now none = false
stamp_due now (some s) = leb s now

abbrev pub is_due : Stamp → JobRow → Bool
is_due now j = j.enabled == 1 && stamp_due now j.next_run_at

-- ORDER BY next_run_at ASC, id ASC; the rows that are due have a next run
abbrev pub stamp_or_zero : Option Stamp → Stamp
stamp_or_zero none = 0
stamp_or_zero (some s) = s

abbrev pub due_before : JobRow → JobRow → Bool
due_before i j =
    ltb (stamp_or_zero i.next_run_at) (stamp_or_zero j.next_run_at)
    || (stamp_or_zero i.next_run_at == stamp_or_zero j.next_run_at && leb i.id j.id)

abbrev pub first_job : List JobRow → Result JobRow
first_job [] = err job_not_found
first_job (j ∷ js) = ok j

unfoldable pub due_rows : Stamp → Tables → List JobRow
due_rows now t = sort_by due_before (select (is_due now) t.jobs)

-- UPDATE jobs SET next_run_at = ?, updated_at = ? WHERE id = ?
unfoldable pub set_next_run : ℕ → Option Stamp → Stamp → Tables → Result (ℕ × Tables)
set_next_run id at updated t = ok (
  count_where (has_id id) t.jobs,
  record t {
    jobs =
        update_where (has_id id) (λ j. record j { next_run_at = at; updated_at = updated }) t.jobs;
  },
)

unfoldable pub set_last_run :
    ℕ → Option Stamp → Option RunStatus → Stamp → Tables → Result (ℕ × Tables)
set_last_run id at status updated t = ok (
  count_where (has_id id) t.jobs,
  record t {
    jobs =
        update_where (has_id id)
          (λ j. record j { last_run_at = at; last_run_status = status; updated_at = updated })
          t.jobs;
  },
)

-- ensureRowsAffected
abbrev pub ensure_rows_affected : ℕ → Error → Action Db Unit
ensure_rows_affected affected not_found = refuse_if (affected == 0) not_found

unfoldable pub delete_by_name : String → Action Db Unit
unfolding delete_job
delete_by_name name = do
  affected ← exec (delete_job name)
  ensure_rows_affected affected job_not_found

unfoldable pub update_next_run : ℕ → Option Time → Time → Action Db Unit
unfolding set_next_run
update_next_run id next_run_at updated_at = do
  affected ← exec (set_next_run id (format_time_ptr next_run_at) (format_time updated_at))
  ensure_rows_affected affected job_not_found

unfoldable pub update_last_run_summary : ℕ → Option Time → Option RunStatus → Time → Action Db Unit
unfolding set_last_run
update_last_run_summary id at status updated_at = do
  refuse_if (bad_last_status status) (invalid "invalid last run status")
  affected ← exec (set_last_run id (format_time_ptr at) status (format_time updated_at))
  ensure_rows_affected affected job_not_found
