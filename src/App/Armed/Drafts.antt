-- ===== src/App/Armed/Drafts.antt =====
-- A draft of `job update` keeps the next run of the job, and whether the job is enabled unless the
-- next run is computed again.
use jobsd.Common.{Bool, true, false, Option, none, some, String, ◌≡◌, ◌⊎◌, inr, refl, arith}
use jobsd.Domain.{Schedule, Job, ConcurrencyPolicy, OnFinishConfig}
use jobsd.Env.{Env}
use jobsd.App.Update.{
  UpdateFlags, Changes, Draft, edit, edit_time, set_name, set_command, set_schedule, set_timezone,
  set_policy, set_hook, clear_hook, disable_hook, inherit_hook, set_enabled, draft_of,
}

pub record Fits (job : Job) (d : Draft) : Type 0 where
  pub same_next : d.job.next_run_at ≡ job.next_run_at
  pub armed : (d.recompute ≡ true) ⊎ (d.job.enabled ≡ job.enabled)

module _ (job : Job) (d : Draft) (h : Fits job d) where
  edit-Fits :
      (u : Job) (b : Bool)
      → u.next_run_at ≡ d.job.next_run_at
      → u.enabled ≡ d.job.enabled
      → Fits job (edit u b d)
  edit-Fits u b n e = record { same_next = ground arith; armed = ground arith }

  edit_time-Fits :
      (u : Job) (b : Bool)
      → u.next_run_at ≡ d.job.next_run_at
      → u.enabled ≡ d.job.enabled
      → Fits job (edit_time u b d)
  edit_time-Fits u b n e = record { same_next = ground arith; armed = ground arith }

  set_name-Fits : (o : Option String) → Fits job (set_name job o d)
  unfolding set_name
  set_name-Fits none = h
  set_name-Fits (some name) = edit-Fits _ _ refl refl

  set_command-Fits : (o : Option String) → Fits job (set_command job o d)
  unfolding set_command
  set_command-Fits none = h
  set_command-Fits (some line) = edit-Fits _ _ refl refl

  set_schedule-Fits : (o : Option Schedule) → Fits job (set_schedule job o d)
  unfolding set_schedule
  set_schedule-Fits none = h
  set_schedule-Fits (some s) = edit_time-Fits _ _ refl refl

  set_timezone-Fits : (o : Option String) → Fits job (set_timezone job o d)
  unfolding set_timezone
  set_timezone-Fits none = h
  set_timezone-Fits (some zone) = edit_time-Fits _ _ refl refl

  set_policy-Fits : (o : Option ConcurrencyPolicy) → Fits job (set_policy job o d)
  unfolding set_policy
  set_policy-Fits none = h
  set_policy-Fits (some policy) = edit-Fits _ _ refl refl

  set_hook-Fits : (env : Env) (o : Option (Option OnFinishConfig)) → Fits job (set_hook job env o d)
  unfolding set_hook
  set_hook-Fits env none = h
  set_hook-Fits env (some hook) = edit-Fits _ _ refl refl

  clear_hook-Fits : (b : Bool) → Fits job (clear_hook job b d)
  unfolding clear_hook
  clear_hook-Fits false = h
  clear_hook-Fits true = edit-Fits _ _ refl refl

  disable_hook-Fits : (b : Bool) → Fits job (disable_hook job b d)
  unfolding disable_hook
  disable_hook-Fits false = h
  disable_hook-Fits true = edit-Fits _ _ refl refl

  inherit_hook-Fits : (b : Bool) → Fits job (inherit_hook job b d)
  unfolding inherit_hook
  inherit_hook-Fits false = h
  inherit_hook-Fits true = edit-Fits _ _ refl refl

  set_enabled-Fits : (b value : Bool) → Fits job (set_enabled job b value d)
  unfolding set_enabled
  set_enabled-Fits false value = h
  set_enabled-Fits true value = record { same_next = ground arith; armed = ground arith }

pub draft_of-Fits :
    (env : Env) (job : Job) (f : UpdateFlags) (c : Changes) → Fits job (draft_of job env f c)
unfolding draft_of
draft_of-Fits env job f c =
    let start : Fits job (record { job = job; changed = false; recompute = false }) = record {
      same_next = refl;
      armed = inr refl;
    } in
    set_enabled-Fits job _
      (set_enabled-Fits job _
        (inherit_hook-Fits job _
          (disable_hook-Fits job _
            (clear_hook-Fits job _
              (set_hook-Fits job _
                (set_policy-Fits job _
                  (set_timezone-Fits job _
                    (set_schedule-Fits job _
                      (set_command-Fits job _ (set_name-Fits job _ start f.new_name) f.command_line)
                      c.schedule)
                    f.timezone)
                  c.concurrency_policy)
                env c.on_finish)
              f.clear_on_finish)
            f.disable_inherited)
          f.inherit_on_finish)
        f.enable true)
      f.disable false
