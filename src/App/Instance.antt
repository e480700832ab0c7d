-- ===== src/App/Instance.antt =====
-- internal/app/scheduler.go: the commands on the hook of an instance, and the metadata that they need.
pub mod Hook
use text.Mathlib.Text.{◌==◌ as str_eq}
use jobsd.Common.{Bool, true, false, not, Option, none, some, List, String, ℤ, pos, if◌then◌else◌}
use jobsd.Result.{Error, metadata_not_found, invalid, Result, ok, err, hang}
use jobsd.Action.{Action, pure, lift, refuse_if, ◌>>=◌, ◌>>◌}
use jobsd.Domain.{Time, InstanceMetadata, OnFinishConfig}
use jobsd.Domain.OnFinish.{parse_on_finish_config_json}
use jobsd.Env.{Env, Codec}
use jobsd.Sqlite.{MetadataKey}
use jobsd.Sqlite.Engine.{Db}
use jobsd.Sqlite.Metadata.{get_metadata, upsert_metadata}

-- what the commands print
pub record SchedulerOnFinish : Type 0 where
  pub instance_name : String
  pub on_finish : Option OnFinishConfig

abbrev pub checked_name : String → InstanceMetadata → Result InstanceMetadata
checked_name name meta =
    if str_eq meta.instance_name name then ok meta else err (invalid "instance metadata mismatch")

-- what ensureInstanceMetadata makes of the answer of Get
abbrev pub ensured : String → Time → Result InstanceMetadata → Result InstanceMetadata
ensured name now (ok meta) = checked_name name meta
ensured name now (err metadata_not_found) =
    ok (record { instance_name = name; created_at = now; scheduler_port = pos 0; on_finish = none })
ensured name now (err e) = err e
ensured name now hang = hang

-- what loadInstanceOnFinish makes of it
abbrev pub loaded : String → Result InstanceMetadata → Result (Option OnFinishConfig)
loaded name (ok meta) =
    if str_eq meta.instance_name name
    then ok meta.on_finish
    else err (invalid "instance metadata mismatch")
loaded name (err metadata_not_found) = ok none
loaded name (err e) = err e
loaded name hang = hang

module _ (env : Env) (codec : Codec) where
  unfoldable pub ensure_instance_metadata : String → Time → Action Db InstanceMetadata
  ensure_instance_metadata name now db =
      let out = get_metadata env codec db in (ensured name now out.0, out.1)

  unfoldable pub load_instance_on_finish : String → Action Db (Option OnFinishConfig)
  load_instance_on_finish name db =
      let out = get_metadata env codec db in (loaded name out.0, out.1)

  -- `scheduler on-finish get`
  unfoldable pub on_finish_get : String → Action Db SchedulerOnFinish
  unfolding load_instance_on_finish
  on_finish_get name = do
    config ← load_instance_on_finish name
    pure (record { instance_name = name; on_finish = config })

  -- `scheduler on-finish set`; `keys` is the order in which Upsert walks its map
  unfoldable pub on_finish_set :
      List MetadataKey → String → String → Time → Time → Action Db SchedulerOnFinish
  unfolding ensure_instance_metadata
  on_finish_set keys name raw now later = do
    config ← lift (parse_on_finish_config_json env raw)
    meta ← ensure_instance_metadata name now
    upsert_metadata env codec keys later (record meta { on_finish = some config })
    pure (record { instance_name = name; on_finish = some config })

  -- `scheduler on-finish clear`
  unfoldable pub on_finish_clear :
      List MetadataKey → String → Time → Time → Action Db SchedulerOnFinish
  unfolding ensure_instance_metadata
  on_finish_clear keys name now later = do
    meta ← ensure_instance_metadata name now
    upsert_metadata env codec keys later (record meta { on_finish = none })
    pure (record { instance_name = name; on_finish = none })
