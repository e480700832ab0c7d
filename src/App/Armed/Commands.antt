-- ===== src/App/Armed/Commands.antt =====
-- The commands keep every job armed exactly if it is enabled.
use jobsd.Common.{
  ℕ, ◌==◌, true, false, not, ◌&&◌, none, some, String, select, All, ◌≡◌, refl, arith, subst,
}
use jobsd.Common.Lists.Laws.{All-select}
use jobsd.Result.{invalid, job_not_found, ok}
use jobsd.Action.{pure, lift, refuse_if}
use jobsd.Domain.{Time, Schedule}
use jobsd.Env.{Env}
use jobsd.Sqlite.{Tables}
use jobsd.Sqlite.Engine.{Db, exec}
use jobsd.Sqlite.Engine.Keeps.{
  Keeps, Keeps-bind, Keeps-lift, Keeps-pure, Keeps-exec, Keeps-refuse_if, Keeps-if,
}
use jobsd.Sqlite.Engine.Yields.{Yields-Keeps, Keeps-Yields, Yields-lift, Yields-bind}
use jobsd.Sqlite.Jobs.{delete_job, delete_by_name, has_name}
use jobsd.Sqlite.JobRecords.{create}
use jobsd.Schedule.Parser.{parse}
use text.Mathlib.Text.{◌==◌ as str_eq}
use jobsd.App.Support.{
  normalized_timezone, load_location, parse_optional_on_finish_config, compute_next_run,
  job_detail_from_domain,
}
use jobsd.App.Jobs.{
  AddFlags, parse_concurrency_policy, validate_value, validate_text, lookup_error, next_if_enabled,
  new_job, add_job, delete_command, pause_job, resume_job,
}
use jobsd.App.Update.{UpdateFlags, update_job_command}
use jobsd.App.Armed.{JobsAreArmed, IsArmedRow, create-armed}
use jobsd.App.Armed.Lookups.{
  Keeps-or_error, store_and_print-armed, found_armed, next_if_enabled-armed,
}
use jobsd.App.Armed.Updates.{update_job_command-armed}

module _ (env : Env) where
  add_job-armed : (flags : AddFlags) (now : Time) → Keeps JobsAreArmed (add_job env flags now)
  unfolding add_job
  add_job-armed flags now =
      let zone = normalized_timezone flags.timezone in
      Keeps-bind (validate_value flags.name) _ (Keeps-refuse_if _ _) λ a.
        Keeps-bind (validate_text flags.schedule) _ (Keeps-refuse_if _ _) λ b.
          Keeps-bind (validate_value flags.command_line) _ (Keeps-refuse_if _ _) λ c.
            Keeps-bind (lift (parse env flags.schedule)) _ (Keeps-lift _) λ parsed.
              Keeps-bind (lift (load_location env zone)) _ (Keeps-lift _) λ location.
                Keeps-bind (lift (parse_concurrency_policy flags.concurrency_policy)) _
                  (Keeps-lift _)
                  λ policy.
                    Keeps-bind
                      (refuse_if (not (str_eq flags.on_finish_config "") && flags.disable_inherited)
                        (invalid "the two flags cannot be used together"))
                      _ (Keeps-refuse_if _ _)
                      λ d.
                        Keeps-bind
                          (lift (parse_optional_on_finish_config env flags.on_finish_config)) _
                          (Keeps-lift _)
                          λ on_finish.
                            let next = next_if_enabled env (not flags.disabled) parsed zone now in
                            Yields-Keeps _ (
                              Yields-bind {R = λ j. Unit {0}} (lift next) _
                                (Yields-lift next
                                  (next_if_enabled-armed env (not flags.disabled) parsed zone now))
                                λ at armed.
                                  let job = new_job env flags parsed policy on_finish at now in
                                  Keeps-Yields _ (
                                    Keeps-bind (create env job) _ (create-armed env job armed)
                                      (λ stored. Keeps-pure (job_detail_from_domain stored))))

  pause_job-armed : (name : String) (now : Time) → Keeps JobsAreArmed (pause_job env name now)
  unfolding pause_job
  pause_job-armed name now = Keeps-bind (validate_value name) _ (Keeps-refuse_if _ _) λ a.
      found_armed env name _ λ job armed.
        Keeps-if (not job.enabled) (pure (job_detail_from_domain job)) _ (Keeps-pure _) (
          store_and_print-armed env
            (record job { enabled = false; next_run_at = none; updated_at = now }) refl)

  resume_job-armed :
      (name : String) (now later : Time) → Keeps JobsAreArmed (resume_job env name now later)
  unfolding resume_job
  resume_job-armed name now later = Keeps-bind (validate_value name) _ (Keeps-refuse_if _ _) λ a.
      found_armed env name _ λ job armed.
        let spec : Schedule = record { kind = job.schedule_kind; expr = job.schedule_expr } in
        Keeps-if job.enabled (pure (job_detail_from_domain job)) _ (Keeps-pure _) (
          Keeps-bind (lift (compute_next_run env spec job.timezone now)) _ (Keeps-lift _) λ at.
            store_and_print-armed env
              (record job { enabled = true; next_run_at = some at; updated_at = later }) refl)

  delete_job-armed :
      (name : String) (t : Tables)
      → JobsAreArmed t
      → (n : ℕ) (t' : Tables) → delete_job name t ≡ ok (n, t')
      → JobsAreArmed t'
  unfolding delete_job
  delete_job-armed name t h n t' e =
      let kept = select (λ j. not (has_name name j)) t.jobs in
      let same : kept ≡ t'.jobs = ground arith in
      subst (All IsArmedRow) same (All-select IsArmedRow (λ j. not (has_name name j)) t.jobs h)

  delete_command-armed : (name : String) → Keeps JobsAreArmed (delete_command name)
  unfolding delete_command delete_by_name
  delete_command-armed name = Keeps-bind (validate_value name) _ (Keeps-refuse_if _ _) λ a.
      Keeps-or_error lookup_error (delete_by_name name) (
        Keeps-bind (exec (delete_job name)) _ (Keeps-exec _ (delete_job-armed name))
          λ affected. Keeps-refuse_if (affected == 0) job_not_found)

  -- The commands that write jobs, with the readings of the clock.
  pub data JobCommand : Type 0 where
    add : AddFlags → Time → JobCommand
    change : String → UpdateFlags → Time → Time → JobCommand
    delete : String → JobCommand
    pause : String → Time → JobCommand
    resume : String → Time → Time → JobCommand

  -- the tables after a command, whether it succeeds or fails
  pub tables_after : JobCommand → Db → Tables
  tables_after (add flags now) db = (add_job env flags now db).1.tables
  tables_after (change name f now later) db = (update_job_command env name f now later db).1.tables
  tables_after (delete name) db = (delete_command name db).1.tables
  tables_after (pause name now) db = (pause_job env name now db).1.tables
  tables_after (resume name now later) db = (resume_job env name now later db).1.tables

  -- Every command that writes jobs keeps it so that a job in the database has a next run exactly if it
  -- is enabled, whether the command succeeds or fails.
  pub commands-JobsAreArmed :
      (command : JobCommand) (db : Db)
      → JobsAreArmed db.tables
      → JobsAreArmed (tables_after command db)
  unfolding tables_after
  commands-JobsAreArmed (add flags now) db h = (add_job-armed flags now).at db h
  commands-JobsAreArmed (change name f now later) db h =
      (update_job_command-armed env name f now later).at db h
  commands-JobsAreArmed (delete name) db h = (delete_command-armed name).at db h
  commands-JobsAreArmed (pause name now) db h = (pause_job-armed name now).at db h
  commands-JobsAreArmed (resume name now later) db h = (resume_job-armed name now later).at db h
