-- ===== src/Sqlite/Runs/Oldest.antt =====
-- ListPending against the table: which runs it leaves out, and in which order it gives the others.
use jobsd.Common.{
  ℕ, ◌≤◌, ◌==◌, ltb, leb, ◌||◌, ◌&&◌, ◌*◌, Bool, true, false, none, List, [], ◌∷◌, find_where,
  is_none, String, not, select, sort_by, take, length, All, IsSortedBy, ◌≡◌, ◌⊎◌, inl, inr, refl,
  arith, Bool-cases,
}
use jobsd.Result.Parts.{bind_parts}
use jobsd.Result.{ok, ◌>>=◌ as bind}
use jobsd.Domain.{Run, RunStatus, is_pending}
use jobsd.Sqlite.{Tables, RunRow}
use jobsd.Sqlite.Engine.{Db}
use jobsd.Sqlite.Runs.{
  Joined, join_jobs, hydrate_run_base, scan_runs, is_unclaimed, queued_before, pending_rows,
  list_pending,
}
use jobsd.Sqlite.Runs.Pending.{queued_before_flip, queued_before_chain, pending_rows_lem}
use jobsd.Sqlite.Runs.Served.{has, Served, All-sort_by_back, take-Served, All-join_jobs_back}
use jobsd.Common.Lists.Sorting.{sort_by-IsSortedBy}

-- a run is given before another run by the times of their queueing, ties by id
abbrev pub earlier_run : Run → Run → Bool
earlier_run r s = ltb r.queued_at s.queued_at || (r.queued_at == s.queued_at && leb r.id s.id)

-- a run against a row, whose stamps are whole seconds
abbrev pub earlier_than_row : Run → RunRow → Bool
earlier_than_row r s =
    ltb r.queued_at (s.queued_at * 1_000_000_000)
    || (r.queued_at == s.queued_at * 1_000_000_000 && leb r.id s.id)

hydrated :
    (row : Joined) {run : Run}
    → hydrate_run_base row ≡ ok run
    → (run.id ≡ row.0.id)
      × (run.queued_at ≡ row.0.queued_at * 1_000_000_000)
      × (run.status ≡ row.0.status)
      × (run.runner_id ≡ row.0.runner_id)
unfolding hydrate_run_base
hydrated row {run} h = ground arith

scan_runs_nil : (runs : List Run) → scan_runs [] ≡ ok runs → runs ≡ []
unfolding scan_runs
scan_runs_nil runs h = ground arith

earlier_hydrated :
    (x y : Joined) {r s : Run}
    → hydrate_run_base x ≡ ok r
    → hydrate_run_base y ≡ ok s
    → queued_before x y ≡ true
    → earlier_run r s ≡ true
earlier_hydrated x y {r} {s} h k before =
    let first = hydrated x h in let second = hydrated y k in ground arith

scan_parts :
    (row : Joined) (rows : List Joined) {runs : List Run}
    → scan_runs (row ∷ rows) ≡ ok runs
    → (run : Run) × (rest : List Run) × (hydrate_run_base row ≡ ok run)
      × (scan_runs rows ≡ ok rest)
      × (runs ≡ run ∷ rest)
unfolding scan_runs
scan_parts row rows h =
    let (run, first, more) =
      bind_parts (hydrate_run_base row) (λ run. bind (scan_runs rows) (λ runs. ok (run ∷ runs)))
        h in
    let (rest, second, last) = bind_parts (scan_runs rows) (λ runs. ok (run ∷ runs)) more in
    (run, rest, first, second, ground arith)

has-scan_runs :
    (id : ℕ) (rows : List Joined) {runs : List Run}
    → scan_runs rows ≡ ok runs
    → has (λ run. run.id == id) runs ≡ has (λ row. row.0.id == id) rows
has-scan_runs id [] {runs} h = rw (scan_runs_nil runs h) refl
has-scan_runs id (row ∷ rows) {runs} h =
    let (run, rest, first, second, same) = scan_parts row rows {runs = runs} h in
    rw (same, (hydrated row first).0, has-scan_runs id rows {runs = rest} second) refl

length-scan_runs :
    (rows : List Joined) {runs : List Run} → scan_runs rows ≡ ok runs → length runs ≡ length rows
length-scan_runs [] {runs} h = rw (scan_runs_nil runs h) refl
length-scan_runs (row ∷ rows) {runs} h =
    let (run, rest, first, second, same) = scan_parts row rows {runs = runs} h in
    rw (same, length-scan_runs rows {runs = rest} second) refl

-- what holds of every row holds of every run that it is scanned to
All-scan_runs :
    (P : Joined → Type 0) (Q : Run → Type 0)
    → ((row : Joined) (run : Run) → hydrate_run_base row ≡ ok run → P row → Q run)
    → (rows : List Joined) {runs : List Run} → scan_runs rows ≡ ok runs
    → All P rows
    → All Q runs
All-scan_runs P Q each [] {runs} h k = rw (scan_runs_nil runs h) tt
All-scan_runs P Q each (row ∷ rows) {runs} h k =
    let (run, rest, first, second, same) = scan_parts row rows {runs = runs} h in
    rw same (each row run first k.0, All-scan_runs P Q each rows {runs = rest} second k.1)

IsSortedBy-scan_runs :
    (rows : List Joined) {runs : List Run}
    → scan_runs rows ≡ ok runs
    → IsSortedBy queued_before rows
    → IsSortedBy earlier_run runs
IsSortedBy-scan_runs [] {runs} h k = rw (scan_runs_nil runs h) tt
IsSortedBy-scan_runs (row ∷ rows) {runs} h k =
    let (run, rest, first, second, same) = scan_parts row rows {runs = runs} h in
    let later =
      All-scan_runs (λ y. queued_before row y ≡ true) (λ s. earlier_run run s ≡ true)
        (λ y s e before. earlier_hydrated row y first e before) rows {runs = rest} second k.0 in
    rw same (later, IsSortedBy-scan_runs rows {runs = rest} second k.1)

-- whether a run waits to be claimed, and its job is there
abbrev pub waits : Tables → RunRow → Bool
waits t r =
    is_pending r.status
    && is_none r.runner_id
    && not (is_none (find_where (λ j. j.id == r.job_id) t.jobs))

-- whether a run is listed, or the list is as long as was asked for and none in it was queued later
abbrev pub ListedOrLater : ℕ → List Run → RunRow → Type 0
ListedOrLater limit runs r =
    (has (λ run. run.id == r.id) runs ≡ true)
    ⊎ ((length runs ≡ limit) × All (λ run. earlier_than_row run r ≡ true) runs)

listed_or_later :
    (limit : ℕ) (rows : List Joined) (row : Joined) {runs : List Run}
    → scan_runs rows ≡ ok runs
    → Served limit rows row
    → ListedOrLater limit runs row.0
listed_or_later limit rows row {runs} h (inl there) =
    inl (rw (has-scan_runs row.0.id rows {runs = runs} h) there)
listed_or_later limit rows row {runs} h (inr (full, earlier)) = inr (
  rw (length-scan_runs rows {runs = runs} h) full,
  All-scan_runs (λ x. queued_before x row ≡ true) (λ run. earlier_than_row run row.0 ≡ true)
      (λ x run e before. let first = hydrated x e in ground arith) rows {runs = runs} h earlier,
)

All-placed :
    (limit : ℕ) (t : Tables) (taken : List Joined) {runs : List Run} (rs : List RunRow)
    → scan_runs taken ≡ ok runs
    → All
        (λ r.
          is_unclaimed r ≡ true
          → is_none (find_where (λ j. j.id == r.job_id) t.jobs) ≡ false
          → (name : String) × Served limit taken (r, name))
        rs
    → All (ListedOrLater limit runs) (select (waits t) rs)
unfolding select
All-placed limit t taken {runs} [] h k = tt
All-placed limit t taken {runs} (r ∷ rs) h (first, rest) =
    let others = All-placed limit t taken {runs = runs} rs h rest in
    elim (Bool-cases (waits t r)) [
      | inl e ↦
          let (name, served) = first (ground arith) (ground arith) in
          rw e (listed_or_later limit taken (r, name) {runs = runs} h served, others)
      | inr e ↦ rw e others
    ]

scanned_pending :
    (limit : ℕ) (t : Tables) {runs : List Run}
    → scan_runs (pending_rows limit t) ≡ ok runs
    → IsSortedBy earlier_run runs
      × All (λ run. (run.status ≡ RunStatus.pending) × (run.runner_id ≡ none)) runs
      × (length runs ≤ limit)
      × All (ListedOrLater limit runs) (select (waits t) t.runs)
unfolding pending_rows
scanned_pending limit t {runs} h =
    let rows = join_jobs is_unclaimed t.jobs t.runs in
    let sorted = sort_by queued_before rows in
    let (order, unclaimed, short) = pending_rows_lem limit t in
    let in_order = sort_by-IsSortedBy queued_before queued_before_flip queued_before_chain rows in
    let served =
      All-sort_by_back (Served limit (take limit sorted)) queued_before rows
        (take-Served limit sorted in_order) in
    (
      IsSortedBy-scan_runs (take limit sorted) {runs = runs} h order,
      All-scan_runs (λ row. is_unclaimed row.0 ≡ true) _
          (λ row run e u. let first = hydrated row e in (ground arith, ground arith))
          (take limit sorted) {runs = runs} h unclaimed,
      rw (length-scan_runs (take limit sorted) {runs = runs} h) short,
      All-placed limit t (take limit sorted) {runs = runs} t.runs h
          (All-join_jobs_back (Served limit (take limit sorted)) is_unclaimed t.jobs t.runs served),
    )

none_listed : (t : Tables) (rs : List RunRow) → All (ListedOrLater 0 []) rs
none_listed t [] = tt
none_listed t (r ∷ rs) = (inr (refl, tt), none_listed t rs)

list_pending_tables : (limit : ℕ) (db : Db) → (list_pending limit db).1.tables ≡ db.tables
unfolding list_pending
list_pending_tables limit db = ground arith

list_pending_none :
    (limit : ℕ) (db : Db) (runs : List Run)
    → (limit == 0) ≡ true
    → (list_pending limit db).0 ≡ ok runs
    → runs ≡ []
unfolding list_pending
list_pending_none limit db runs e h = ground arith

list_pending_scans :
    (limit : ℕ) (db : Db) (runs : List Run)
    → (limit == 0) ≡ false
    → (list_pending limit db).0 ≡ ok runs
    → scan_runs (pending_rows limit db.tables) ≡ ok runs
unfolding list_pending pending_rows
list_pending_scans limit db runs e h = ground arith

-- What ListPending answers stands in the order of queueing, ties by id, and are pending runs without a runner,
-- at most as many as asked for. It is complete: every row that waits in the table and has its job is among them,
-- unless there are as many as asked for and each of these was queued before it. No table changes.
pub list_pending_oldest :
    (limit : ℕ) (db : Db) {runs : List Run}
    → (list_pending limit db).0 ≡ ok runs
    → IsSortedBy earlier_run runs
      × All (λ run. (run.status ≡ RunStatus.pending) × (run.runner_id ≡ none)) runs
      × (length runs ≤ limit)
      × All (ListedOrLater limit runs) (select (waits db.tables) db.tables.runs)
      × ((list_pending limit db).1.tables ≡ db.tables)
list_pending_oldest limit db {runs} h = elim (Bool-cases (limit == 0)) [
  | inl e ↦
      let empty : limit ≡ 0 = ground arith in
      rw (list_pending_tables limit db, list_pending_none limit db runs e h, empty)
        (tt, tt, omega arith, none_listed db.tables (select (waits db.tables) db.tables.runs), refl)
  | inr e ↦
      let (order, unclaimed, short, complete) =
        scanned_pending limit db.tables {runs = runs} (list_pending_scans limit db runs e h) in
      (order, unclaimed, short, complete, list_pending_tables limit db)
]
