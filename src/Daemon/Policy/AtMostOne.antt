-- ===== src/Daemon/Policy/AtMostOne.antt =====
-- How many unfinished runs a job has once a policy has been applied.
use jobsd.Common.{
  ℕ, ◌≤◌, List, [], ◌∷◌, if◌then◌else◌, update_where, count_where, ◌≡◌, ◌≢◌, refl, arith, inl, inr,
  ◌⊎◌,
}
use jobsd.Result.{engine, run_conflict, Result, ok, err, hang}
use jobsd.Action.{Action, pure, lift, continue, ◌>>=◌}
use jobsd.Domain.{Time, Job, Run, ConcurrencyPolicy}
use jobsd.Sqlite.{Stamp, RunRow, format_time}
use jobsd.Sqlite.Engine.{Db}
use jobsd.Sqlite.Runs.{enqueue_manual, enqueue_scheduled, list_unfinished_by_job}
use jobsd.Sqlite.RunResults.{pending_of, canceled_at, cancel_pending, cancel_pending_by_job}
use jobsd.Daemon.Policy.{
  is_empty, normalize_policy, enqueue_by_policy, make_room, enqueue_manual_with_policy,
}
use jobsd.Daemon.Policy.Counts.{
  HasJob, unfinished, waiting, AtMostOne, enqueue_manual_lem, then_done, guarded,
}

forbid_lem :
    (job : Job) (due at : Time) (db : Db)
    → AtMostOne job.id db.tables (enqueue_by_policy ConcurrencyPolicy.forbid job due at db).1.tables
unfolding enqueue_by_policy
forbid_lem job due at db =
    guarded job.id (enqueue_scheduled job.id due at >>= (λ run. pure tt)) (pure tt) db
      (then_done job.id due at) (λ d. refl)

-- Under the forbid policy, a due job of the table that has an unfinished run gets no other one: the
-- tables stay as they are.
pub enqueue_forbid_full :
    (job : Job) (due at : Time) (db : Db)
    → HasJob job.id db.tables
    → unfinished job.id db.tables ≢ 0
    → (enqueue_by_policy ConcurrencyPolicy.forbid job due at db).1.tables ≡ db.tables
enqueue_forbid_full job due at db has some_left = (forbid_lem job due at db).0 has some_left

-- Under the forbid policy, a due job that has at most one unfinished run has at most one
-- afterwards, whatever statements the engine refuses.
pub enqueue_forbid_at_most_one :
    (job : Job) (due at : Time) (db : Db)
    → unfinished job.id db.tables ≤ 1
    → unfinished job.id (enqueue_by_policy ConcurrencyPolicy.forbid job due at db).1.tables ≤ 1
enqueue_forbid_at_most_one job due at db few = (forbid_lem job due at db).1 few

-- `m` when there is room, as make_room and the insert that follows it do
room_then :
    (id : ℕ) (m : Action Db Run) (db : Db)
    → ((list_unfinished_by_job id
            >>= (λ runs. if is_empty runs then pure tt else lift (err run_conflict)))
          >>= (λ u. m))
        db
      ≡ (list_unfinished_by_job id
            >>= (λ runs. if is_empty runs then m else lift (err run_conflict)))
          db
room_then id m db = go (list_unfinished_by_job id db).0 (list_unfinished_by_job id db).1
  where
    go :
        (r : Result (List Run)) (d : Db)
        → let first =
            continue r (λ runs. if is_empty runs then pure tt else lift (err run_conflict)) d in
          continue first.0 (λ u. m) first.1
          ≡ continue r (λ runs. if is_empty runs then m else lift (err run_conflict)) d
    go (ok []) d = refl
    go (ok (run ∷ runs)) d = refl
    go (err x) d = refl
    go hang d = refl

manual_lem :
    (job : Job) (at : Time) (db : Db)
    → normalize_policy job.concurrency_policy ≡ ConcurrencyPolicy.forbid
    → AtMostOne job.id db.tables (enqueue_manual_with_policy job at db).1.tables
unfolding enqueue_manual_with_policy make_room
manual_lem job at db e =
    rw (e, room_then job.id (enqueue_manual job.id at) db)
      (guarded job.id (enqueue_manual job.id at) (lift (err run_conflict)) db
        (enqueue_manual_lem job.id at) (λ d. refl))

-- Under the forbid policy, which is also the policy of a job that names none, a manual run of a job
-- of the table that has an unfinished run is not stored.
enqueue_manual_full :
    (job : Job) (at : Time) (db : Db)
    → normalize_policy job.concurrency_policy ≡ ConcurrencyPolicy.forbid
    → HasJob job.id db.tables
    → unfinished job.id db.tables ≢ 0
    → (enqueue_manual_with_policy job at db).1.tables ≡ db.tables
enqueue_manual_full job at db e has some_left = (manual_lem job at db e).0 has some_left

-- Under the forbid policy, which is also the policy of a job that names none, a job that has at most
-- one unfinished run has at most one after a manual enqueue, whether it succeeds or not.
pub enqueue_manual_at_most_one :
    (job : Job) (at : Time) (db : Db)
    → normalize_policy job.concurrency_policy ≡ ConcurrencyPolicy.forbid
    → unfinished job.id db.tables ≤ 1
    → unfinished job.id (enqueue_manual_with_policy job at db).1.tables ≤ 1
enqueue_manual_at_most_one job at db e few = (manual_lem job at db e).1 few

none_waiting :
    (id : ℕ) (at : Stamp) (rs : List RunRow)
    → count_where (pending_of id) (update_where (pending_of id) (canceled_at at) rs) ≡ 0
unfolding count_where update_where
none_waiting id at [] = refl
none_waiting id at (r ∷ rs) = ground (arith, none_waiting id at rs)

cancel_pending_lem :
    (id : ℕ) (at : Time) (db : Db)
    → ((cancel_pending_by_job id at db).0 ≡ err engine)
        × (((cancel_pending_by_job id at db).1.tables) ≡ db.tables)
      ⊎ ((cancel_pending_by_job id at db).0 ≡ ok tt)
        × (waiting id (cancel_pending_by_job id at db).1.tables ≡ 0)
unfolding cancel_pending_by_job cancel_pending
cancel_pending_lem id at db = ground (arith, none_waiting id (format_time at) db.tables.runs)

-- Under the replace policy a due job has at most one run waiting afterwards, however many it had,
-- unless the engine refused to cancel them: then the tables stay as they are and the call fails.
pub enqueue_replace :
    (job : Job) (due at : Time) (db : Db)
    → ((enqueue_by_policy ConcurrencyPolicy.replace job due at db).1.tables ≡ db.tables)
        × ((enqueue_by_policy ConcurrencyPolicy.replace job due at db).0 ≡ err engine)
      ⊎ waiting job.id (enqueue_by_policy ConcurrencyPolicy.replace job due at db).1.tables ≤ 1
unfolding enqueue_by_policy
enqueue_replace job due at db =
    go (cancel_pending_by_job job.id at db).0 (cancel_pending_by_job job.id at db).1
      (cancel_pending_lem job.id at db)
  where
    after : Action Db Unit
    after = enqueue_scheduled job.id due at >>= (λ run. pure tt)

    go :
        (r : Result Unit) (d : Db)
        → (r ≡ err engine) × (d.tables ≡ db.tables) ⊎ (r ≡ ok tt) × (waiting job.id d.tables ≡ 0)
        → ((continue r (λ u. after) d).1.tables ≡ db.tables)
            × ((continue r (λ u. after) d).0 ≡ err engine)
          ⊎ waiting job.id (continue r (λ u. after) d).1.tables ≤ 1
    go (ok u) d (inl (e, t)) = absurd (ground arith)
    go (ok u) d (inr (e, w)) = let h = then_done job.id due at d in inr (ground arith)
    go (err x) d (inl (e, t)) = inl (t, e)
    go (err x) d (inr (e, w)) = absurd (ground arith)
    go hang d (inl (e, t)) = inl (t, e)
    go hang d (inr (e, w)) = absurd (ground arith)
