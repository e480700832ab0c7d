-- ===== src/App/Armed/Updates.antt =====
-- `job update` keeps every job armed.
use jobsd.Common.{not, ◌&&◌, Option, none, some, String, if◌then◌else◌, arith}
use jobsd.Common.Text.{Runes}
use jobsd.Result.{Ensures}
use jobsd.Action.{pure, lift, ◌>>=◌}
use jobsd.Domain.{Time, Schedule, Job, ConcurrencyPolicy}
use jobsd.Env.{Env}
use jobsd.Sqlite.Engine.Keeps.{Keeps, Keeps-bind, Keeps-pure, Keeps-refuse_if, Keeps-if}
use jobsd.Sqlite.Engine.Yields.{Yields-Keeps, Keeps-Yields, Yields-lift, Yields-bind}
use jobsd.App.Support.{job_detail_from_domain}
use jobsd.App.Jobs.{validate_value, store_and_print}
use jobsd.App.Update.{
  UpdateFlags, Changes, Draft, draft_of, recomputed, update_job_command, check_flags,
  check_optional, parse_schedule_flag, check_timezone_flag, parse_policy_flag, parse_hook_flag,
}
use jobsd.App.Armed.Drafts.{Fits, draft_of-Fits}
use jobsd.App.Armed.{JobsAreArmed, IsArmed}
use jobsd.App.Armed.Lookups.{store_and_print-armed, found_armed, next_if_enabled-armed}

module _ (env : Env) where
  -- the job that `job update` stores
  recomputed-IsArmed :
      (job : Job) (d : Draft) (now : Time)
      → IsArmed job
      → Fits job d
      → Ensures IsArmed (recomputed env d now)
  unfolding recomputed
  recomputed-IsArmed job d now a fits =
      let u = d.job in
      let spec : Schedule = record { kind = u.schedule_kind; expr = u.schedule_expr } in
      ground (arith, next_if_enabled-armed env u.enabled spec u.timezone now)

  check_flags-armed : (f : UpdateFlags) → Keeps JobsAreArmed (check_flags f)
  unfolding check_flags
  check_flags-armed f = record { at = λ db h. ground arith }

  check_optional-armed : (o : Option String) → Keeps JobsAreArmed (check_optional o)
  check_optional-armed none = Keeps-pure tt
  check_optional-armed (some value) = Keeps-refuse_if _ _

  schedule_flag-armed : (o : Option Runes) → Keeps JobsAreArmed (parse_schedule_flag env o)
  unfolding parse_schedule_flag
  schedule_flag-armed none = Keeps-pure none
  schedule_flag-armed (some raw) = record { at = λ db h. ground arith }

  timezone_flag-armed : (o : Option String) → Keeps JobsAreArmed (check_timezone_flag env o)
  unfolding check_timezone_flag
  timezone_flag-armed none = Keeps-pure tt
  timezone_flag-armed (some zone) = record { at = λ db h. ground arith }

  policy_flag-armed : (o : Option ConcurrencyPolicy) → Keeps JobsAreArmed (parse_policy_flag env o)
  unfolding parse_policy_flag
  policy_flag-armed none = Keeps-pure none
  policy_flag-armed (some raw) = record { at = λ db h. ground arith }

  hook_flag-armed : (o : Option String) → Keeps JobsAreArmed (parse_hook_flag env o)
  unfolding parse_hook_flag
  hook_flag-armed none = Keeps-pure none
  hook_flag-armed (some raw) = record { at = λ db h. ground arith }

  -- what is done with the job once the flags are parsed
  stored_armed :
      (job : Job) (d : Draft) (now later : Time)
      → IsArmed job
      → Fits job d
      → Keeps JobsAreArmed (do
        updated ← lift (recomputed env d now)
        if not d.changed && not d.recompute
            then pure (job_detail_from_domain job)
            else store_and_print env (record updated { updated_at = later }))
  stored_armed job d now later a fits = Yields-Keeps _ (
      Yields-bind {R = λ j. Unit {0}} (lift (recomputed env d now)) _
        (Yields-lift (recomputed env d now) (recomputed-IsArmed job d now a fits))
        λ updated armed. Keeps-Yields _ (
          Keeps-if (not d.changed && not d.recompute) (pure (job_detail_from_domain job)) _
            (Keeps-pure _)
            (store_and_print-armed env (record updated { updated_at = later }) armed)))

  pub update_job_command-armed :
      (name : String) (f : UpdateFlags) (now later : Time)
      → Keeps JobsAreArmed (update_job_command env name f now later)
  unfolding update_job_command
  update_job_command-armed name f now later =
      Keeps-bind (validate_value name) _ (Keeps-refuse_if _ _) λ a.
        Keeps-bind (check_flags f) _ (check_flags-armed f) λ b.
          Keeps-bind (check_optional f.new_name) _ (check_optional-armed f.new_name) λ c.
            Keeps-bind (check_optional f.command_line) _ (check_optional-armed f.command_line) λ d.
              Keeps-bind (parse_schedule_flag env f.schedule) _ (schedule_flag-armed f.schedule)
                λ schedule.
                  Keeps-bind (check_timezone_flag env f.timezone) _ (timezone_flag-armed f.timezone)
                    λ e.
                      Keeps-bind (parse_policy_flag env f.concurrency_policy) _
                        (policy_flag-armed f.concurrency_policy)
                        λ policy.
                          Keeps-bind (parse_hook_flag env f.on_finish_config) _
                            (hook_flag-armed f.on_finish_config)
                            λ hook. found_armed env name _ λ job armed.
                              let c : Changes = record {
                                schedule = schedule;
                                concurrency_policy = policy;
                                on_finish = hook;
                              } in
                              stored_armed job (draft_of job env f c) now later armed
                                (draft_of-Fits env job f c)
