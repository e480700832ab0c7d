-- ===== src/Daemon/Loop/Live/Ticks.antt =====
-- Each part of a tick keeps a job to at most one live run.
use jobsd.Common.{
  ℕ, ◌≤◌, Bool, true, false, not, some, List, [], ◌∷◌, String, if◌then◌else◌, ◌≡◌, ◌∙◌, refl, arith,
  inl, inr, ◌⊎◌,
}
use jobsd.Result.{Result, ok, err, hang}
use jobsd.Action.{Action, pure, continue, ◌>>=◌, logged}
use jobsd.Domain.{Time, Job, Run, RunStatus}
use jobsd.Env.{Env}
use jobsd.Sqlite.Engine.{Db}
use jobsd.Sqlite.Runs.{list_pending, try_claim_pending, mark_running}
use jobsd.Sqlite.JobRecords.{get_by_id, list_due}
use jobsd.Daemon.Loop.{
  Loop, on_db, now, claim_limit, ensure_runner_id, prepare_run_start, start_run_execution, launch,
  start_pending, start_all, process_pending_runs, enqueue_all, process_due_jobs, process_tick,
}
use jobsd.Daemon.Loop.Live.{live, prepare_lem, start_lem}

-- An action that keeps a job to at most one live run.
pub record KeepsLive {A : Type 0} (id : ℕ) (m : Action Loop A) : Type 0 where
  pub at : (l : Loop) → live id l ≤ 1 → live id (m l).1 ≤ 1

-- An action that leaves the runs that are active as they are.
pub record Still {A : Type 0} (m : Action Loop A) : Type 0 where
  pub at : (l : Loop) → (m l).1.active_by_run_id ≡ l.active_by_run_id

module _ {A : Type 0} where
  pub Still-on_db : (m : Action Db A) → Still (on_db m)
  Still-on_db m = record { at = λ l. refl }

  Still-KeepsLive : (id : ℕ) (m : Action Loop A) → Still m → KeepsLive id m
  Still-KeepsLive id m s = record { at = λ l h. rw (s.at l) h }

  KeepsLive-pure : (id : ℕ) (a : A) → KeepsLive id (pure a)
  KeepsLive-pure id a = record { at = λ l h. h }

KeepsLive-bind :
    {A B : Type 0} (id : ℕ) (m : Action Loop A) (f : A → Action Loop B)
    → KeepsLive id m
    → ((a : A) → KeepsLive id (f a))
    → KeepsLive id (m >>= f)
KeepsLive-bind {A} {B} id m f k g = record { at = λ l h. go (m l).0 (m l).1 (k.at l h) }
  where
    go : (r : Result A) (l : Loop) → live id l ≤ 1 → live id (continue r f l).1 ≤ 1
    go (ok a) l h = (g a).at l h
    go (err e) l h = h
    go hang l h = h

KeepsLive-logged : (id : ℕ) (m : Action Loop Unit) → KeepsLive id m → KeepsLive id (logged m)
KeepsLive-logged id m k = record { at = λ l h. let e = k.at l h in ground arith }

pub Still-bind :
    {A B : Type 0} (m : Action Loop A) (f : A → Action Loop B)
    → Still m
    → ((a : A) → Still (f a))
    → Still (m >>= f)
Still-bind {A} {B} m f k g = record { at = λ l. go (m l).0 (m l).1 ∙ k.at l }
  where
    go : (r : Result A) (l : Loop) → (continue r f l).1.active_by_run_id ≡ l.active_by_run_id
    go (ok a) l = (g a).at l
    go (err e) l = refl
    go hang l = refl

pub Still-logged : (m : Action Loop Unit) → Still m → Still (logged m)
Still-logged m k = record { at = λ l. let e = k.at l in ground arith }

pub Still-now : Still now
Still-now = record { at = λ l. refl }

Still-ensure_runner_id : Still ensure_runner_id
unfolding ensure_runner_id
Still-ensure_runner_id = record { at = λ l. ground arith }

-- The same, from a state where the job that is about to start has no live run.
record KeepsVacant {A : Type 0} (id : ℕ) (job : Job) (m : Action Loop A) : Type 0 where
  vacant : (l : Loop) → live id l ≤ 1 → live job.id l ≡ 0 → live id (m l).1 ≤ 1

KeepsVacant-bind :
    {A B : Type 0} (id : ℕ) (job : Job) (m : Action Loop A) (f : A → Action Loop B)
    → Still m
    → ((a : A) → KeepsVacant id job (f a))
    → KeepsVacant id job (m >>= f)
KeepsVacant-bind {A} {B} id job m f s g = record {
  vacant = λ l h e. go (m l).0 (m l).1 (rw (s.at l) h) (rw (s.at l) e);
}
  where
    go :
        (r : Result A) (l : Loop)
        → live id l ≤ 1
        → live job.id l ≡ 0
        → live id (continue r f l).1 ≤ 1
    go (ok a) l h e = (g a).vacant l h e
    go (err x) l h e = h
    go hang l h e = h

abbrev running_run : Run → Time → String → Run
running_run run started_at runner = record run {
  status = RunStatus.running;
  started_at = some started_at;
  runner_id = some runner;
}

KeepsVacant-if :
    {A : Type 0} (id : ℕ) (job : Job) (b : Bool) (m n : Action Loop A)
    → KeepsVacant id job m
    → KeepsVacant id job n
    → KeepsVacant id job (if b then m else n)
KeepsVacant-if id job true m n k l = k
KeepsVacant-if id job false m n k l = l

launch_lem : (id : ℕ) (job : Job) (run : Run) → KeepsVacant id job (launch job run)
unfolding launch
launch_lem id job run = KeepsVacant-bind id job now _ Still-now λ started_at.
    KeepsVacant-bind id job (on_db (mark_running run.id started_at)) _ (Still-on_db _) λ u.
      KeepsVacant-bind id job ensure_runner_id
        (λ runner. start_run_execution job (running_run run started_at runner))
        Still-ensure_runner_id
        λ runner. record { vacant = start_lem id job (running_run run started_at runner) }

claim_lem :
    (id : ℕ) (job : Job) (run : Run)
    → KeepsVacant id job (do
      runner ← ensure_runner_id
      claimed ← on_db (try_claim_pending run.id runner)
      if claimed then launch job run else pure tt)
claim_lem id job run = KeepsVacant-bind id job ensure_runner_id _ Still-ensure_runner_id λ runner.
    KeepsVacant-bind id job (on_db (try_claim_pending run.id runner)) _ (Still-on_db _) λ claimed.
      KeepsVacant-if id job claimed _ _ (launch_lem id job run) (record { vacant = λ l h e. h })

module _ (env : Env) (id : ℕ) where
  prepared_lem :
      (job : Job) (m : Action Loop Unit)
      → KeepsVacant id job m
      → KeepsLive id (prepare_run_start job >>= λ ready. if not ready then pure tt else m)
  prepared_lem job m k = record {
    at = λ l h.
        let p = prepare_lem id job l in
        go (prepare_run_start job l).0 (prepare_run_start job l).1 (omega arith) p.1;
  }
    where
      go :
          (r : Result Bool) (l : Loop)
          → live id l ≤ 1
          → r ≡ ok false ⊎ (r ≡ ok true) × (live job.id l ≡ 0)
          → live id (continue r (λ ready. if not ready then pure tt else m) l).1 ≤ 1
      go (ok true) l h (inl e) = absurd (ground arith)
      go (ok true) l h (inr (e, v)) = k.vacant l h v
      go (ok false) l h s = h
      go (err x) l h s = h
      go hang l h s = h

  start_pending-KeepsLive : (run : Run) → KeepsLive id (start_pending env run)
  unfolding start_pending
  start_pending-KeepsLive run =
      KeepsLive-bind id _ _ (Still-KeepsLive id _ (Still-on_db (get_by_id env run.job_id)))
        λ job. prepared_lem job _ (claim_lem id job run)

  start_all-KeepsLive : (runs : List Run) → KeepsLive id (start_all env runs)
  unfolding start_all
  start_all-KeepsLive [] = KeepsLive-pure id tt
  start_all-KeepsLive (run ∷ runs) =
      KeepsLive-bind id _ _ (KeepsLive-logged id _ (start_pending-KeepsLive run))
        λ u. start_all-KeepsLive runs

  enqueue_all-Still :
      (fuel : ℕ) (at : Time) (jobs : List Job) → KeepsLive id (enqueue_all env fuel at jobs)
  unfolding enqueue_all
  enqueue_all-Still fuel at [] = KeepsLive-pure id tt
  enqueue_all-Still fuel at (job ∷ jobs) =
      KeepsLive-bind id _ _ (KeepsLive-logged id _ (Still-KeepsLive id _ (Still-on_db _)))
        λ u. enqueue_all-Still fuel at jobs

  process_pending_runs-KeepsLive : KeepsLive id (process_pending_runs env)
  unfolding process_pending_runs
  process_pending_runs-KeepsLive = record {
    at = λ l.
        (KeepsLive-logged id _ (
            KeepsLive-bind id (on_db (list_pending (claim_limit l))) _
              (Still-KeepsLive id _ (Still-on_db _)) start_all-KeepsLive)).at
          l;
  }

  process_due_jobs-KeepsLive : (fuel : ℕ) (at : Time) → KeepsLive id (process_due_jobs env fuel at)
  unfolding process_due_jobs
  process_due_jobs-KeepsLive fuel at = KeepsLive-logged id _ (
      KeepsLive-bind id _ _ (Still-KeepsLive id _ (Still-on_db (list_due env at)))
        (enqueue_all-Still fuel at))

  -- A tick keeps every job to at most one run that is active and not canceled, whatever its policy
  -- and whatever the stores answer.
  pub process_tick-live :
      (fuel : ℕ) (l : Loop) → live id l ≤ 1 → live id (process_tick env fuel l).1 ≤ 1
  unfolding process_tick
  process_tick-live fuel =
      (KeepsLive-bind id now _ (Still-KeepsLive id _ Still-now) λ at.
        KeepsLive-bind id _ _ (process_due_jobs-KeepsLive fuel at)
          λ u. process_pending_runs-KeepsLive).at
