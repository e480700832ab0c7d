-- ===== src/Daemon/Policy/Future.antt =====
-- computeFutureNextRun: it skips every time that has passed, and ends if the schedule goes on.
use jobsd.Common.{
  ℕ, zero, suc, ◌+◌, ◌*◌, ◌≤◌, ◌<◌, ltb, true, false, Option, none, some, ◌≡◌, refl, arith, ap, ◌∙◌,
  ◌⊎◌, inl, inr, Bool-cases, ◌≢◌,
}
use jobsd.Common.Text.{Runes}
use jobsd.Result.{invalid, Result, ok, err, hang, ◌>>=◌}
use jobsd.Domain.{Schedule, ScheduleKind, Time, Job}
use jobsd.Env.{Env, Location}
use jobsd.Schedule.Parser.{parse}
use jobsd.Schedule.Next.{next}
use jobsd.Schedule.Next.Interval.{next_timed}
use jobsd.Schedule.Next.Cron.{cron_text, next_cron}
use jobsd.Daemon.Policy.{load_job_location, next_after, compute_future_next_run}

-- the schedule that a job stands for
abbrev pub schedule_of : Job → Schedule
schedule_of job = record { kind = job.schedule_kind; expr = job.schedule_expr }

module _ (env : Env) where
  next_after_later :
      (fuel : ℕ) (spec : Schedule) (loc : Location) (now ref : Time) {at : Time}
      → next_after env fuel spec loc now ref ≡ ok at
      → now < at
  unfolding next_after
  next_after_later zero spec loc now ref h = cc
  next_after_later (suc fuel) spec loc now ref {at} h =
      go (next env spec ref (some loc)) (λ t. next_after_later fuel spec loc now t {at = at}) h
    where
      go :
          (r : Result Time)
          → ((t : Time) → next_after env fuel spec loc now t ≡ ok at → now < at)
          → (r >>= λ t. elim (ltb now t) [
            | true ↦ ok t
            | false ↦ next_after env fuel spec loc now t
          ])
            ≡ ok at
          → now < at
      go (ok t) ih k = ground (arith, ih t)
      go (err e) ih k = cc
      go hang ih k = cc

  -- The time that is stored as the next run lies after now, whatever the schedule.
  compute_future_next_run_later :
      (fuel : ℕ) (job : Job) (now : Time) {at : Time}
      → compute_future_next_run env fuel job now ≡ ok at
      → now < at
  unfolding compute_future_next_run
  compute_future_next_run_later fuel job now {at} h =
      go job.next_run_at (load_job_location env job.timezone) h
    where
      go :
          (due : Option Time) (l : Result Location)
          → (elim due [
            | none ↦ err (invalid "next run is required")
            | some ref ↦ (l >>= λ location. next_after env fuel (schedule_of job) location now ref)
          ])
            ≡ ok at
          → now < at
      go none l k = cc
      go (some ref) (ok loc) k = next_after_later fuel (schedule_of job) loc now ref k
      go (some ref) (err e) k = cc
      go (some ref) hang k = cc

  -- the first of the times `ref + n`, `ref + 2n`, … after now
  abbrev pub IsFirstAfter : Time → Time → ℕ → Time → Type 0
  IsFirstAfter now ref n at =
      (k : ℕ) × (at ≡ ref + suc k * n) × (now < at) × ((k ≡ 0) ⊎ (ref + k * n ≤ now))

  module _ (fuel : ℕ) (spec : Schedule) (loc : Location) (now ref t : Time) where
    next_after_done :
        next env spec ref (some loc) ≡ ok t
        → now < t
        → next_after env (suc fuel) spec loc now ref ≡ ok t
    unfolding next_after
    next_after_done e h = ground arith

    next_after_again :
        next env spec ref (some loc) ≡ ok t
        → t ≤ now
        → next_after env (suc fuel) spec loc now ref ≡ next_after env fuel spec loc now t
    unfolding next_after
    next_after_again e h = ground arith

  next_after_total :
      (fuel : ℕ) (spec : Schedule) (loc : Location) (n : ℕ) (now ref : Time)
      → ((r : Time) → next env spec r (some loc) ≡ ok (r + n))
      → 0 < fuel
      → now < ref + fuel * n
      → (at : Time) × (next_after env fuel spec loc now ref ≡ ok at) × IsFirstAfter now ref n at
  next_after_total zero spec loc n now ref steps some_fuel h = absurd (omega arith)
  next_after_total (suc fuel) spec loc n now ref steps some_fuel h =
      elim (Bool-cases (ltb now (ref + n))) [
        | inl e ↦ (
          ref + n,
          next_after_done fuel spec loc now ref (ref + n) (steps ref) (ground arith),
          (0, omega arith, ground arith, inl refl),
        )
        | inr e ↦
            let passed : ref + n ≤ now = ground arith in
            let left : 0 < fuel = more_fuel fuel (omega arith) in
            let (at, found, first) =
              next_after_total fuel spec loc n now (ref + n) steps left (omega arith) in
            (
              at,
              next_after_again fuel spec loc now ref (ref + n) (steps ref) passed ∙ found,
              (suc first.0, omega (arith, first.1), first.2, inr (skipped passed first.0 first.3)),
            )
      ]
    where
      more_fuel : (f : ℕ) → n < suc f * n → 0 < f
      more_fuel zero g = absurd (omega arith)
      more_fuel (suc f) g = omega arith

      skipped : ref + n ≤ now → (k : ℕ) → (k ≡ 0) ⊎ (ref + n + k * n ≤ now) → ref + suc k * n ≤ now
      skipped p k (inl z) = omega (arith, ap (λ t. t * n) z)
      skipped p k (inr g) = omega arith

  -- Next never fires again: the library says so by the zero time.
  next_after_never :
      (fuel : ℕ) (spec : Schedule) (loc : Location) (now ref : Time)
      → ((r : Time) → next env spec r (some loc) ≡ ok 0)
      → next_after env fuel spec loc now ref ≡ hang
  next_after_never zero spec loc now ref never = unfold next_after in refl
  next_after_never (suc fuel) spec loc now ref never =
      next_after_again fuel spec loc now ref 0 (never ref) (omega arith)
      ∙ next_after_never fuel spec loc now 0 never

  module _ (raw : Runes) (job : Job) (loc : Location) (now ref : Time)
      (parsed : parse env raw ≡ ok (schedule_of job))
      (zone : load_job_location env job.timezone ≡ ok loc) (due : job.next_run_at ≡ some ref) where
    compute_lem :
        (fuel : ℕ)
        → compute_future_next_run env fuel job now
          ≡ next_after env fuel (schedule_of job) loc now ref
    unfolding compute_future_next_run
    compute_lem fuel = ground arith

    -- A job with an interval of n, which is positive, gets the first of its times after now, if the
    -- loop has as many rounds as there are times to skip: a round for each nanosecond from the next
    -- run to now is enough.
    pub compute_future_next_run_first :
        (fuel : ℕ)
        → job.schedule_kind ≢ ScheduleKind.cron
        → 0 < fuel
        → now < ref + fuel
        → (n : ℕ) × (at : Time) × (0 < n)
          × (next env (schedule_of job) ref (some loc) ≡ ok (ref + n))
          × (compute_future_next_run env fuel job now ≡ ok at)
          × IsFirstAfter now ref n at
    compute_future_next_run_first fuel not_cron some_fuel enough =
        let (n, positive, steps) = next_timed env raw {s = schedule_of job} parsed not_cron in
        let (at, found, first) =
          next_after_total fuel (schedule_of job) loc n now ref (λ r. steps r (some loc)) some_fuel
            (enough_rounds fuel n positive enough) in
        (n, at, positive, steps ref (some loc), compute_lem fuel ∙ found, first)
      where
        enough_rounds : (fuel n : ℕ) → 0 < n → now < ref + fuel → now < ref + fuel * n
        enough_rounds fuel n p h = grind arith

    -- A job whose cron expression the library finds no time for keeps the loop going for ever: no
    -- fuel is enough.
    pub compute_future_next_run_never :
        job.schedule_kind ≡ ScheduleKind.cron
        → ((r : Time) → env.cron_next (cron_text (schedule_of job)) loc r ≡ 0)
        → (fuel : ℕ) → compute_future_next_run env fuel job now ≡ hang
    compute_future_next_run_never k never fuel =
        compute_lem fuel
        ∙ next_after_never fuel (schedule_of job) loc now ref
            (λ r. next_cron env raw {s = schedule_of job} r (some loc) parsed k ∙ ap ok (never r))
