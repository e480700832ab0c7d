-- ===== src/Daemon/Policy.antt =====
-- internal/daemon/policy.go, over the stores of internal/sqlite. The loop of computeFutureNextRun
-- takes fuel, and `hang` says that it was used up.
pub mod Future
pub mod Counts
pub mod AtMostOne
use text.Mathlib.Text.{◌==◌ as str_eq}
use jobsd.Common.{
  ℕ, zero, suc, ltb, Bool, true, false, ◌||◌, Option, none, some, List, [], ◌∷◌, String,
  if◌then◌else◌,
}
use jobsd.Result.{invalid, run_conflict, Result, ok, err, hang, ◌>>=◌ as bind}
use jobsd.Action.{Action, pure, lift, ◌>>=◌, ◌>>◌, refuse_if}
use jobsd.Domain.{Time, Job, Run, Schedule, ScheduleKind, ConcurrencyPolicy}
use jobsd.Env.{Env, Location}
use jobsd.Schedule.Next.{next, local}
use jobsd.Sqlite.Engine.{Db}
use jobsd.Sqlite.Runs.{enqueue_manual, enqueue_scheduled, list_unfinished_by_job}
use jobsd.Sqlite.RunResults.{cancel_pending_by_job}
use jobsd.Sqlite.Jobs.{update_next_run}
use jobsd.Sqlite.JobRecords.{update}

abbrev pub normalize_policy : ConcurrencyPolicy → ConcurrencyPolicy
normalize_policy ConcurrencyPolicy.unset = ConcurrencyPolicy.forbid
normalize_policy policy = policy

-- `len(unfinished) == 0`
abbrev pub is_empty {ℓ} : {A : Type ℓ} → List A → Bool
is_empty [] = true
is_empty (x ∷ xs) = false

-- the `switch` on the policy; `scheduled_for` is *job.NextRunAt
unfoldable pub enqueue_by_policy : ConcurrencyPolicy → Job → Time → Time → Action Db Unit
enqueue_by_policy ConcurrencyPolicy.forbid job scheduled_for now = do
  unfinished ← list_unfinished_by_job job.id
  if is_empty unfinished
      then (do run ← enqueue_scheduled job.id scheduled_for now; pure tt)
      else pure tt
enqueue_by_policy ConcurrencyPolicy.queue job scheduled_for now = do
  run ← enqueue_scheduled job.id scheduled_for now
  pure tt
enqueue_by_policy ConcurrencyPolicy.replace job scheduled_for now = do
  cancel_pending_by_job job.id now
  run ← enqueue_scheduled job.id scheduled_for now
  pure tt
enqueue_by_policy policy job scheduled_for now =
    lift (err (invalid "unsupported concurrency policy"))

module _ (env : Env) where
  unfoldable pub load_job_location : String → Result Location
  load_job_location timezone =
      if str_eq timezone "" || str_eq timezone "Local"
      then ok local
      else elim (env.load_location timezone) [
        | none ↦ err (invalid "load timezone")
        | some location ↦ ok location
      ]

  -- the `for` of computeFutureNextRun
  unfoldable pub next_after : ℕ → Schedule → Location → Time → Time → Result Time
  next_after zero spec location now ref = hang
  next_after (suc fuel) spec location now ref =
      bind (next env spec ref (some location))
        λ at. elim (ltb now at) [ true ↦ ok at | false ↦ next_after fuel spec location now at ]

  unfoldable pub compute_future_next_run : ℕ → Job → Time → Result Time
  compute_future_next_run fuel job now = elim job.next_run_at [
    | none ↦ err (invalid "next run is required")
    | some ref ↦ bind (load_job_location job.timezone) λ location.
        next_after fuel (record { kind = job.schedule_kind; expr = job.schedule_expr }) location now
          ref
  ]

  abbrev pub is_once : ScheduleKind → Bool
  is_once ScheduleKind.once = true
  is_once _ = false

  unfoldable pub advance_schedule_state : ℕ → Job → Time → Action Db Unit
  advance_schedule_state fuel job now =
      if is_once job.schedule_kind
      then (do
        updated ← update env (record job { enabled = false; next_run_at = none; updated_at = now })
        pure tt)
      else do at ← lift (compute_future_next_run fuel job now); update_next_run job.id (some at) now

  unfoldable pub enqueue_scheduled_with_policy : ℕ → Job → Time → Action Db Unit
  unfolding advance_schedule_state enqueue_by_policy
  enqueue_scheduled_with_policy fuel job now = elim job.next_run_at [
    | none ↦ lift (err (invalid "next run is required for scheduled enqueue"))
    | some scheduled_for ↦
        (enqueue_by_policy (normalize_policy job.concurrency_policy) job scheduled_for now
          >> advance_schedule_state fuel job now)
  ]

-- the `switch` of EnqueueManualWithPolicy, which has no default
unfoldable pub make_room : ConcurrencyPolicy → Job → Time → Action Db Unit
make_room ConcurrencyPolicy.forbid job now = do
  unfinished ← list_unfinished_by_job job.id
  if is_empty unfinished then pure tt else lift (err run_conflict)
make_room ConcurrencyPolicy.replace job now = cancel_pending_by_job job.id now
make_room policy job now = pure tt

unfoldable pub enqueue_manual_with_policy : Job → Time → Action Db Run
unfolding make_room
enqueue_manual_with_policy job now = do
  make_room (normalize_policy job.concurrency_policy) job now
  enqueue_manual job.id now
