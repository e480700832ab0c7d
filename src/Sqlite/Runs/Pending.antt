-- ===== src/Sqlite/Runs/Pending.antt =====
-- What ListPending and ClaimPending are offered: the oldest runs that nobody has claimed.
use jobsd.Common.{
  ℕ, ◌≤◌, ◌==◌, Bool, true, false, Option, none, some, List, [], ◌∷◌, find_where, sort_by, length,
  All, IsSortedBy, ◌≡◌, arith, Bool-cases, inl, inr,
}
use jobsd.Common.Lists.Laws.{All-take, length-take-le}
use jobsd.Common.Lists.Sorting.{All-sort_by, sort_by-IsSortedBy, IsSortedBy-take}
use jobsd.Sqlite.{Tables, JobRow, RunRow}
use jobsd.Sqlite.Runs.{Joined, join_jobs, is_unclaimed, queued_before, pending_rows}

All-join_jobs :
    (test : RunRow → Bool) (jobs : List JobRow) (rs : List RunRow)
    → All (λ row. test row.0 ≡ true) (join_jobs test jobs rs)
unfolding join_jobs
All-join_jobs test jobs [] = tt
All-join_jobs test jobs (r ∷ rs) = elim (Bool-cases (test r)) [
  | inl e ↦ rw e (joined (find_where (λ j. j.id == r.job_id) jobs) e (All-join_jobs test jobs rs))
  | inr e ↦ rw e (All-join_jobs test jobs rs)
]
  where
    rest : List Joined
    rest = join_jobs test jobs rs

    joined :
        (found : Option JobRow)
        → test r ≡ true
        → All (λ row. test row.0 ≡ true) rest
        → All (λ row. test row.0 ≡ true) (elim found [ none ↦ rest | some j ↦ (r, j.name) ∷ rest ])
    joined none e h = h
    joined (some j) e h = (e, h)

pub queued_before_flip : (r s : Joined) → queued_before r s ≡ false → queued_before s r ≡ true
queued_before_flip r s e = ground arith

pub queued_before_chain :
    (r s u : Joined)
    → queued_before r s ≡ true
    → queued_before s u ≡ true
    → queued_before r u ≡ true
queued_before_chain r s u e f = ground arith

-- The rows that are offered stand in the order of their queueing, ties by id, none of them is
-- claimed or has left the pending state, and there are at most as many as asked for.
pub pending_rows_lem :
    (limit : ℕ) (t : Tables)
    → IsSortedBy queued_before (pending_rows limit t)
      × All (λ row. is_unclaimed row.0 ≡ true) (pending_rows limit t)
      × (length (pending_rows limit t) ≤ limit)
unfolding pending_rows
pending_rows_lem limit t =
    let rows = join_jobs is_unclaimed t.jobs t.runs in
    let sorted = sort_by queued_before rows in
    (
      IsSortedBy-take queued_before limit sorted
          (sort_by-IsSortedBy queued_before queued_before_flip queued_before_chain rows),
      All-take (λ row. is_unclaimed row.0 ≡ true) limit sorted
          (All-sort_by (λ row. is_unclaimed row.0 ≡ true) queued_before rows
            (All-join_jobs is_unclaimed t.jobs t.runs)),
      length-take-le limit sorted,
    )
