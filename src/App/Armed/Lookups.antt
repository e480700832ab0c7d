-- ===== src/App/Armed/Lookups.antt =====
-- What the commands share keeps every job armed: finding, checking and storing a job.
use jobsd.Common.{Bool, true, false, not, String, is_none, ◌≡◌, refl, arith}
use jobsd.Result.{Error, Result, ok, err, hang, Ensures}
use jobsd.Action.{Action, ◌>>=◌}
use jobsd.Domain.{Time, Schedule, Job}
use jobsd.Env.{Env}
use jobsd.Sqlite.{Tables}
use jobsd.Sqlite.Engine.{Db}
use jobsd.Sqlite.Engine.Keeps.{Keeps, Keeps-bind, Keeps-pure}
use jobsd.Sqlite.Engine.Yields.{Yields, Yields-Keeps, Keeps-Yields, Yields-bind}
use jobsd.Sqlite.JobRecords.{get_by_name, update}
use jobsd.App.Jobs.{lookup_error, with_error, or_error, next_if_enabled, find_job, store_and_print}
use jobsd.App.Armed.{JobsAreArmed, IsArmed, get_by_name-IsArmed, update-armed}

module _ {A : Type 0} (f : Error → Error) where
  pub with_error-Ensures :
      (Q : A → Type 0) (r : Result A) → Ensures Q r → Ensures Q (with_error f r)
  with_error-Ensures Q (ok a) q = q
  with_error-Ensures Q (err e) q = tt
  with_error-Ensures Q hang q = tt

  pub Yields-or_error :
      {P : Tables → Type 0} {Q : A → Type 0} (m : Action Db A)
      → Yields P Q m
      → Yields P Q (or_error f m)
  Yields-or_error {P} {Q} m y = record {
    at = λ db h. let out = y.at db h in (out.0, with_error-Ensures Q (m db).0 out.1);
  }

  pub Keeps-or_error : {P : Tables → Type 0} (m : Action Db A) → Keeps P m → Keeps P (or_error f m)
  Keeps-or_error m k = record { at = λ db h. k.at db h }

module _ (env : Env) where
  pub store_and_print-armed :
      (job : Job) → IsArmed job → Keeps JobsAreArmed (store_and_print env job)
  store_and_print-armed job a =
      Keeps-bind _ _ (Keeps-or_error lookup_error (update env job) (update-armed env job a))
        (λ stored. Keeps-pure _)

  -- what a command does with the job of a name
  pub found_armed :
      {A : Type 0} (name : String) (use_job : Job → Action Db A)
      → ((job : Job) → IsArmed job → Keeps JobsAreArmed (use_job job))
      → Keeps JobsAreArmed (find_job env name >>= use_job)
  found_armed name use_job k = Yields-Keeps _ (
      Yields-bind {R = λ a. Unit {0}} _ _
        (Yields-or_error lookup_error (get_by_name env name) (get_by_name-IsArmed env name))
        (λ job a. Keeps-Yields _ (k job a)))

  pub next_if_enabled-armed :
      (enabled : Bool) (spec : Schedule) (timezone : String) (now : Time)
      → Ensures (λ at. not (is_none at) ≡ enabled) (next_if_enabled env enabled spec timezone now)
  next_if_enabled-armed false spec timezone now = refl
  next_if_enabled-armed true spec timezone now = ground arith
