-- ===== src/Daemon/Policy/Counts.antt =====
-- What an enqueue makes of the number of unfinished runs of a job.
use jobsd.Common.{
  ℕ, suc, ◌≤◌, ◌==◌, Bool, true, false, Option, none, some, List, [], ◌∷◌, if◌then◌else◌, is_none,
  count_where, find_where, sort_by, insert_by, length, ◌≡◌, ◌≢◌, refl, arith, Bool-cases, inl, inr,
  ap, sym, ◌∙◌, ◌⊎◌,
}
use jobsd.Common.Lists.Laws.{count_where-append}
use jobsd.Result.{Result, ok, err, hang}
use jobsd.Action.{Action, pure, continue, ◌>>=◌}
use jobsd.Domain.{Time, Run, RunStatus, RunTriggerType}
use jobsd.Sqlite.{Stamp, Tables, JobRow, RunRow, format_time}
use jobsd.Sqlite.Engine.{Db, exec, tick}
use jobsd.Sqlite.Runs.{
  Joined, join_jobs, scan_runs, insert_run, get_run, enqueue_manual, enqueue_scheduled,
  unfinished_of, queued_before, list_unfinished_by_job,
}
use jobsd.Sqlite.RunResults.{pending_of}
use jobsd.Daemon.Policy.{is_empty}

-- the job of that id is in the table
abbrev pub HasJob : ℕ → Tables → Type 0
HasJob id t = is_none (find_where (λ j. j.id == id) t.jobs) ≡ false

-- how many runs of a job are pending or running, and how many are pending
abbrev pub unfinished : ℕ → Tables → ℕ
unfinished id t = count_where (unfinished_of id) t.runs

abbrev pub waiting : ℕ → Tables → ℕ
waiting id t = count_where (pending_of id) t.runs

-- the join drops no run of a job that is there
length-join_jobs :
    (id : ℕ) (jobs : List JobRow) (rs : List RunRow)
    → is_none (find_where (λ j. j.id == id) jobs) ≡ false
    → length (join_jobs (unfinished_of id) jobs rs) ≡ count_where (unfinished_of id) rs
unfolding join_jobs count_where
length-join_jobs id jobs [] h = refl
length-join_jobs id jobs (r ∷ rs) h = elim (Bool-cases (r.job_id == id)) [
  | inl e ↦
      let same : r.job_id ≡ id = ground arith in
      rw same (ground (arith, length-join_jobs id jobs rs h))
  | inr e ↦ rw e (length-join_jobs id jobs rs h)
]

length-insert_by :
    (row : Joined) (rows : List Joined)
    → length (insert_by queued_before row rows) ≡ suc (length rows)
unfolding insert_by
length-insert_by row [] = refl
length-insert_by row (s ∷ rows) = ground (arith, length-insert_by row rows)

length-sort_by : (rows : List Joined) → length (sort_by queued_before rows) ≡ length rows
unfolding sort_by
length-sort_by [] = refl
length-sort_by (row ∷ rows) =
    length-insert_by row (sort_by queued_before rows) ∙ ap suc (length-sort_by rows)

-- scanning drops no row
scan_runs-empty :
    (rows : List Joined) {runs : List Run}
    → scan_runs rows ≡ ok runs
    → is_empty runs ≡ (length rows == 0)
unfolding scan_runs
scan_runs-empty [] e = ground arith
scan_runs-empty (row ∷ rows) e = ground arith

-- what ListUnfinishedByJob says of the count
list_unfinished_lem :
    (id : ℕ) (db : Db) {runs : List Run} {db' : Db}
    → list_unfinished_by_job id db ≡ (ok runs, db')
    → HasJob id db.tables
    → is_empty runs ≡ (unfinished id db.tables == 0)
list_unfinished_lem id db {runs} {db'} h job =
    let joined = join_jobs (unfinished_of id) db.tables.jobs db.tables.runs in
    unfold list_unfinished_by_job in
    ground (
      arith,
      scan_runs-empty (sort_by queued_before joined) {runs = runs},
      length-sort_by joined,
      length-join_jobs id db.tables.jobs db.tables.runs job,
    )

list_unfinished-tables : (id : ℕ) (db : Db) → (list_unfinished_by_job id db).1.tables ≡ db.tables
unfolding list_unfinished_by_job
list_unfinished-tables id db = ground arith

get_run-tables : (id : ℕ) (db : Db) → (get_run id db).1.tables ≡ db.tables
unfolding get_run
get_run-tables id db = ground arith

-- one more run of a job, which is pending
abbrev pub IsOneMore : ℕ → Tables → Tables → Type 0
IsOneMore id t t' =
    (unfinished id t' ≡ suc (unfinished id t)) × (waiting id t' ≡ suc (waiting id t))

insert_run_lem :
    (id : ℕ) (trigger : RunTriggerType) (scheduled_for : Option Stamp) (queued_at : Stamp)
    (t : Tables) {n : ℕ} {t' : Tables}
    → insert_run id trigger scheduled_for queued_at t ≡ ok (n, t')
    → HasJob id t × IsOneMore id t t'
unfolding insert_run count_where
insert_run_lem id trigger scheduled_for queued_at t {n} {t'} e =
    let row : RunRow = record {
      id = suc t.run_seq;
      job_id = id;
      trigger_type = trigger;
      status = RunStatus.pending;
      scheduled_for = scheduled_for;
      queued_at = queued_at;
      started_at = none;
      finished_at = none;
      exit_code = none;
      error_message = none;
      runner_id = none;
    } in
    ground (
      arith,
      count_where-append (unfinished_of id) t.runs (row ∷ []),
      count_where-append (pending_of id) t.runs (row ∷ []),
    )

-- An insert and the read that follows it: if the insert fails, nothing changes, and if the read
-- fails, the row stays.
exec-get_run :
    (f : Tables → Result (ℕ × Tables)) (P : Tables → Type 0) (db : Db)
    → ((n : ℕ) (t : Tables) → f db.tables ≡ ok (n, t) → P t)
    → (((exec f >>= get_run) db).1.tables ≡ db.tables) ⊎ P (((exec f >>= get_run) db).1.tables)
exec-get_run f P db h = go (db.refuses db.statements) refl (f db.tables) refl
  where
    go :
        (b : Bool)
        → db.refuses db.statements ≡ b
        → (r : Result (ℕ × Tables)) → f db.tables ≡ r
        → (((exec f >>= get_run) db).1.tables ≡ db.tables) ⊎ P (((exec f >>= get_run) db).1.tables)
    go true e r k = inl (rw e refl)
    go false e (err x) k = inl (rw (e, k) refl)
    go false e hang k = inl (rw (e, k) refl)
    go false e (ok (n, t)) k =
        inr (rw (e, k, get_run-tables n (record (tick db) { tables = t })) (h n t k))

-- An enqueue that fails after the insert leaves the run; one that fails before it changes nothing.
abbrev pub MayAdd : ℕ → Tables → Tables → Type 0
MayAdd id t t' = (t' ≡ t) ⊎ (HasJob id t × IsOneMore id t t')

enqueue_scheduled_lem :
    (id : ℕ) (due at : Time) (db : Db)
    → MayAdd id db.tables (enqueue_scheduled id due at db).1.tables
enqueue_scheduled_lem id due at db =
    unfold enqueue_scheduled in
    exec-get_run (insert_run id RunTriggerType.schedule (some (format_time due)) (format_time at))
      (λ t. HasJob id db.tables × IsOneMore id db.tables t) db
      λ n t e. insert_run_lem id _ _ _ db.tables e

pub enqueue_manual_lem :
    (id : ℕ) (at : Time) (db : Db) → MayAdd id db.tables (enqueue_manual id at db).1.tables
enqueue_manual_lem id at db =
    unfold enqueue_manual in
    exec-get_run (insert_run id RunTriggerType.manual none (format_time at))
      (λ t. HasJob id db.tables × IsOneMore id db.tables t) db
      λ n t e. insert_run_lem id _ _ _ db.tables e

-- what the policy does with an answer of ListUnfinishedByJob, when another run is not wanted
abbrev pub AtMostOne : ℕ → Tables → Tables → Type 0
AtMostOne id t t' =
    (HasJob id t → unfinished id t ≢ 0 → t' ≡ t) × (unfinished id t ≤ 1 → unfinished id t' ≤ 1)

MayAdd-AtMostOne :
    (id : ℕ) (t t' : Tables)
    → (HasJob id t → unfinished id t ≡ 0)
    → MayAdd id t t'
    → AtMostOne id t t'
MayAdd-AtMostOne id t t' h (inl e) = (λ j n. e, λ l. rw e l)
MayAdd-AtMostOne id t t' h (inr (j, (e, w))) = (λ k n. absurd (n (h k)), λ l. ground (arith, h j))

pub guarded :
    {A : Type 0} (id : ℕ) (m : Action Db A) (refused : Action Db A) (db : Db)
    → ((d : Db) → MayAdd id d.tables (m d).1.tables)
    → ((d : Db) → (refused d).1.tables ≡ d.tables)
    → AtMostOne id db.tables
        ((list_unfinished_by_job id >>= λ runs. if is_empty runs then m else refused) db).1.tables
guarded id m refused db h k =
    go (list_unfinished_by_job id db).0 (list_unfinished_by_job id db).1 refl
      (list_unfinished-tables id db)
  where
    same : (d : Db) → d.tables ≡ db.tables → AtMostOne id db.tables d.tables
    same d e = (λ j n. e, λ l. rw e l)

    go :
        (r : Result (List Run)) (d : Db)
        → list_unfinished_by_job id db ≡ (r, d)
        → d.tables ≡ db.tables
        → AtMostOne id db.tables
            (continue r (λ runs. if is_empty runs then m else refused) d).1.tables
    go (err x) d e t = same d t
    go hang d e t = same d t
    go (ok (run ∷ runs)) d e t = same (refused d).1 (k d ∙ t)
    go (ok []) d e t =
        MayAdd-AtMostOne id db.tables (m d).1.tables
          (λ j. ground (arith, list_unfinished_lem id db e j)) (rw (sym t) (h d))

pub then_done :
    (id : ℕ) (due at : Time) (db : Db)
    → MayAdd id db.tables ((enqueue_scheduled id due at >>= (λ run. pure tt)) db).1.tables
then_done id due at db =
    go (enqueue_scheduled id due at db).0 (enqueue_scheduled id due at db).1
      (enqueue_scheduled_lem id due at db)
  where
    go :
        (r : Result Run) (d : Db)
        → MayAdd id db.tables d.tables
        → MayAdd id db.tables (continue r (λ run. pure tt) d).1.tables
    go (ok run) d h = h
    go (err x) d h = h
    go hang d h = h
