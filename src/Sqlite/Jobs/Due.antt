-- ===== src/Sqlite/Jobs/Due.antt =====
-- What ListDue returns, and that a job whose next run has been moved on is not among it.
use jobsd.Common.{
  ℕ, ◌<◌, true, false, some, List, [], ◌∷◌, select, update_where, sort_by, All, IsSortedBy, ◌≡◌,
  arith, subst, Bool-cases, inl, inr,
}
use jobsd.Common.Lists.Laws.{select_sound}
use jobsd.Common.Lists.Sorting.{All-sort_by, sort_by-IsSortedBy}
use jobsd.Result.{ok}
use jobsd.Domain.{Time}
use jobsd.Sqlite.{Stamp, Tables, JobRow, format_time}
use jobsd.Sqlite.Engine.{Db}
use jobsd.Sqlite.Jobs.{has_id, is_due, due_before, due_rows, set_next_run, update_next_run}

due_before_flip : (i j : JobRow) → due_before i j ≡ false → due_before j i ≡ true
due_before_flip i j e = ground arith

due_before_chain :
    (i j k : JobRow) → due_before i j ≡ true → due_before j k ≡ true → due_before i k ≡ true
due_before_chain i j k e f = ground arith

-- The rows that are due stand in the order of their next run, ties by id, and each of them is
-- enabled with a next run that is not after `now`.
due_rows_lem :
    (now : Stamp) (t : Tables)
    → IsSortedBy due_before (due_rows now t) × All (λ j. is_due now j ≡ true) (due_rows now t)
unfolding due_rows
due_rows_lem now t =
    let rows = select (is_due now) t.jobs in
    (
      sort_by-IsSortedBy due_before due_before_flip due_before_chain rows,
      All-sort_by (λ j. is_due now j ≡ true) due_before rows (select_sound (is_due now) t.jobs),
    )

abbrev moved : Stamp → Stamp → JobRow → JobRow
moved at updated j = record j { next_run_at = some at; updated_at = updated }

moved-not-due :
    (id : ℕ) (now at updated : Stamp) (js : List JobRow)
    → now < at
    → All
        (λ j. has_id id j ≡ false)
        (select (is_due now) (update_where (has_id id) (moved at updated) js))
unfolding select update_where
moved-not-due id now at updated [] h = tt
moved-not-due id now at updated (j ∷ js) h =
    let rest = moved-not-due id now at updated js h in
    elim (Bool-cases (has_id id j)) [
      | inl e ↦
          let late : is_due now (moved at updated j) ≡ false = ground arith in rw (e, late) rest
      | inr e ↦ elim (Bool-cases (is_due now j)) [
        | inl d ↦ rw (e, d) (e, rest)
        | inr d ↦ rw (e, d) rest
      ]
    ]

-- A job whose next run has been set to a later second than that of `now` is not due at `now` any
-- more: the same occurrence is not enqueued twice.
pub update_next_run-due :
    (id : ℕ) (at updated now : Time) (db : Db) {db' : Db}
    → update_next_run id (some at) updated db ≡ (ok tt, db')
    → format_time now < format_time at
    → All (λ j. has_id id j ≡ false) (due_rows (format_time now) db'.tables)
unfolding update_next_run set_next_run due_rows
update_next_run-due id at updated now db {db'} e h =
    let js =
      update_where (has_id id) (moved (format_time at) (format_time updated)) db.tables.jobs in
    let same : js ≡ db'.tables.jobs = ground arith in
    subst
      (λ jobs.
        All (λ j. has_id id j ≡ false)
          (sort_by due_before (select (is_due (format_time now)) jobs)))
      same
      (All-sort_by (λ j. has_id id j ≡ false) due_before (select (is_due (format_time now)) js)
        (moved-not-due id (format_time now) (format_time at) (format_time updated) db.tables.jobs
          h))
