-- ===== src/App/Update.antt =====
-- internal/app/job.go: `job update`. The draft is the job as changed so far, with the two flags that say
-- whether a value is another one, and whether the next run has to be computed again.
use text.Mathlib.Text.{◌==◌ as str_eq}
use jobsd.Common.{
  Bool, true, false, not, ◌&&◌, ◌||◌, Option, none, some, String, if◌then◌else◌, is_none,
}
use jobsd.Common.Text.{Runes, text_eq}
use jobsd.Result.{Error, invalid, Result, ok, err, hang}
use jobsd.Result
use jobsd.Action.{Action, pure, lift, ◌>>=◌, ◌>>◌, refuse_if}
use jobsd.Domain.{Time, Schedule, Job, ConcurrencyPolicy, OnFinishConfig}
use jobsd.Env.{Env}
use jobsd.Schedule.Parser.{parse}
use jobsd.Schedule.Next.{same_kind}
use jobsd.Sqlite.Engine.{Db}
use jobsd.App.Support.{
  JobDetail, normalized_timezone, load_location, parse_optional_on_finish_config,
  on_finish_configs_equal, job_detail_from_domain,
}
use jobsd.App.Jobs.{
  validate_value, validate_text, parse_concurrency_policy, find_job, next_if_enabled,
  store_and_print,
}

-- the flags of `job update`
pub record UpdateFlags : Type 0 where
  pub new_name : Option String
  pub command_line : Option String
  pub schedule : Option Runes
  pub timezone : Option String
  pub concurrency_policy : Option ConcurrencyPolicy
  pub enable : Bool
  pub disable : Bool
  pub on_finish_config : Option String
  pub clear_on_finish : Bool
  pub disable_inherited : Bool
  pub inherit_on_finish : Bool

abbrev pub changes_nothing : UpdateFlags → Bool
changes_nothing f =
    is_none f.new_name
    && is_none f.command_line
    && is_none f.schedule
    && is_none f.timezone
    && is_none f.concurrency_policy
    && not f.enable
    && not f.disable
    && is_none f.on_finish_config
    && not f.clear_on_finish
    && not f.disable_inherited
    && not f.inherit_on_finish

unfoldable pub check_flags : UpdateFlags → Action Db Unit
check_flags f = do
  refuse_if (changes_nothing f) (invalid "at least one field to update must be provided")
  refuse_if (f.enable && f.disable) (invalid "the two flags cannot be used together")
  refuse_if (not (is_none f.on_finish_config) && f.clear_on_finish)
      (invalid "the two flags cannot be used together")
  refuse_if (f.disable_inherited && f.inherit_on_finish)
      (invalid "the two flags cannot be used together")
  refuse_if (not (is_none f.on_finish_config) && f.disable_inherited)
      (invalid "the two flags cannot be used together")

abbrev pub check_optional : Option String → Action Db Unit
check_optional none = pure tt
check_optional (some value) = validate_value value

-- The flags after they have been parsed.
pub record Changes : Type 0 where
  pub schedule : Option Schedule
  pub concurrency_policy : Option ConcurrencyPolicy
  -- none: the flag was not given; some none: it was empty
  pub on_finish : Option (Option OnFinishConfig)

pub record Draft : Type 0 where
  pub job : Job
  pub changed : Bool
  pub recompute : Bool

-- `a != b`
abbrev pub differ : Bool → Bool → Bool
differ true b = not b
differ false b = b

unfoldable pub same_policy : ConcurrencyPolicy → ConcurrencyPolicy → Bool
same_policy ConcurrencyPolicy.unset ConcurrencyPolicy.unset = true
same_policy ConcurrencyPolicy.forbid ConcurrencyPolicy.forbid = true
same_policy ConcurrencyPolicy.queue ConcurrencyPolicy.queue = true
same_policy ConcurrencyPolicy.replace ConcurrencyPolicy.replace = true
same_policy (ConcurrencyPolicy.unknown s) (ConcurrencyPolicy.unknown t) = str_eq s t
same_policy _ _ = false

-- a step that changes a value, and one after which the next run is computed again
abbrev pub edit : Job → Bool → Draft → Draft
edit updated differs d = record d { job = updated; changed = d.changed || differs }

abbrev pub edit_time : Job → Bool → Draft → Draft
edit_time updated differs d = record {
  job = updated;
  changed = d.changed || differs;
  recompute = d.recompute || differs;
}

module _ (job : Job) where
  unfoldable pub set_name : Option String → Draft → Draft
  set_name none d = d
  set_name (some name) d =
      let u = d.job in edit (record u { name = name }) (not (str_eq name job.name)) d

  unfoldable pub set_command : Option String → Draft → Draft
  set_command none d = d
  set_command (some line) d =
      let u = d.job in
      edit (record u { command_line = line }) (not (str_eq line job.command_line)) d

  unfoldable pub set_schedule : Option Schedule → Draft → Draft
  set_schedule none d = d
  set_schedule (some s) d =
      let u = d.job in
      edit_time (record u { schedule_kind = s.kind; schedule_expr = s.expr })
        (not (same_kind s.kind job.schedule_kind) || not (text_eq s.expr job.schedule_expr)) d

  unfoldable pub set_timezone : Option String → Draft → Draft
  set_timezone none d = d
  set_timezone (some zone) d =
      let u = d.job in
      edit_time (record u { timezone = zone })
        (not (str_eq (normalized_timezone zone) (normalized_timezone job.timezone))) d

  unfoldable pub set_policy : Option ConcurrencyPolicy → Draft → Draft
  set_policy none d = d
  set_policy (some policy) d =
      let u = d.job in
      edit (record u { concurrency_policy = policy })
        (not (same_policy policy job.concurrency_policy)) d

  unfoldable pub set_hook : Env → Option (Option OnFinishConfig) → Draft → Draft
  set_hook env none d = d
  set_hook env (some hook) d =
      let u = d.job in
      edit (record u { on_finish = hook; disable_inherited_on_finish = false })
        (not (on_finish_configs_equal env hook job.on_finish)
          || differ false job.disable_inherited_on_finish)
        d

  unfoldable pub clear_hook : Bool → Draft → Draft
  clear_hook false d = d
  clear_hook true d =
      let u = d.job in edit (record u { on_finish = none }) (not (is_none job.on_finish)) d

  unfoldable pub disable_hook : Bool → Draft → Draft
  disable_hook false d = d
  disable_hook true d =
      let u = d.job in
      edit (record u { on_finish = none; disable_inherited_on_finish = true })
        (differ true job.disable_inherited_on_finish || not (is_none job.on_finish)) d

  unfoldable pub inherit_hook : Bool → Draft → Draft
  inherit_hook false d = d
  inherit_hook true d =
      let u = d.job in
      edit (record u { disable_inherited_on_finish = false })
        (differ false job.disable_inherited_on_finish) d

  unfoldable pub set_enabled : Bool → Bool → Draft → Draft
  set_enabled false value d = d
  set_enabled true value d =
      let u = d.job in edit_time (record u { enabled = value }) (differ value job.enabled) d

  -- the steps in their order
  unfoldable pub draft_of : Env → UpdateFlags → Changes → Draft
  unfolding set_name set_command set_schedule set_timezone set_policy set_hook clear_hook
      disable_hook inherit_hook set_enabled
  draft_of env f c = set_enabled f.disable false (
      set_enabled f.enable true (
        inherit_hook f.inherit_on_finish (
          disable_hook f.disable_inherited (
            clear_hook f.clear_on_finish (
              set_hook env c.on_finish (
                set_policy c.concurrency_policy (
                  set_timezone f.timezone (
                    set_schedule c.schedule (
                      set_command f.command_line (
                        set_name f.new_name
                          (record { job = job; changed = false; recompute = false })))))))))))

module _ (env : Env) where
  unfoldable pub parse_schedule_flag : Option Runes → Action Db (Option Schedule)
  parse_schedule_flag none = pure none
  parse_schedule_flag (some raw) = do
    validate_text raw
    parsed ← lift (parse env raw)
    pure (some parsed)

  unfoldable pub check_timezone_flag : Option String → Action Db Unit
  check_timezone_flag none = pure tt
  check_timezone_flag (some zone) = do
    validate_value zone
    location ← lift (load_location env zone)
    pure tt

  unfoldable pub parse_policy_flag : Option ConcurrencyPolicy → Action Db (Option ConcurrencyPolicy)
  parse_policy_flag none = pure none
  parse_policy_flag (some raw) = do policy ← lift (parse_concurrency_policy raw); pure (some policy)

  unfoldable pub parse_hook_flag : Option String → Action Db (Option (Option OnFinishConfig))
  parse_hook_flag none = pure none
  parse_hook_flag (some raw) = do
    hook ← lift (parse_optional_on_finish_config env raw)
    pure (some hook)

  -- `if recomputeNextRun { … }`
  unfoldable pub recomputed : Draft → Time → Result Job
  recomputed d now =
      let u = d.job in
      if d.recompute
      then Result.◌>>=◌
          (next_if_enabled env u.enabled (record { kind = u.schedule_kind; expr = u.schedule_expr })
            u.timezone now)
          (λ at. ok (record u { next_run_at = at }))
      else ok u

  unfoldable pub update_job_command : String → UpdateFlags → Time → Time → Action Db JobDetail
  update_job_command name f now later = do
    validate_value name
    check_flags f
    check_optional f.new_name
    check_optional f.command_line
    schedule ← parse_schedule_flag f.schedule
    check_timezone_flag f.timezone
    policy ← parse_policy_flag f.concurrency_policy
    hook ← parse_hook_flag f.on_finish_config
    job ← find_job env name
    let d =
        draft_of job env f
          (record { schedule = schedule; concurrency_policy = policy; on_finish = hook })
    updated ← lift (recomputed d now)
    if not d.changed && not d.recompute
        then pure (job_detail_from_domain job)
        else store_and_print env (record updated { updated_at = later })
