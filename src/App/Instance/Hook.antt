-- ===== src/App/Instance/Hook.antt =====
-- The hook of an instance: `get` after `set` and after `clear`.
use text.Mathlib.Text.{◌==◌ as str_eq}
use jobsd.Common.{true, false, Option, none, some, List, String, ◌≡◌, refl, eq_iff, subst, arith}
use jobsd.Result.{Result, ok, err, hang}
use jobsd.Action.{Action}
use jobsd.Domain.{Time, InstanceMetadata, OnFinishConfig}
use jobsd.Domain.OnFinish.{normalize_on_finish_config, parse_on_finish_config_json}
use jobsd.Domain.OnFinish.Normal.{
  HookReadsBack, normalize_on_finish_config-IsNormal, normalize_on_finish_config_of_IsNormal,
}
use jobsd.Env.{Env, Codec, CodecRoundTrip, JsonRoundTrip}
use jobsd.Sqlite.{MetadataKey, format_time}
use jobsd.Sqlite.Engine.{Db}
use jobsd.Sqlite.Metadata.{get_metadata, upsert_metadata}
use jobsd.Sqlite.Metadata.Cell.{IsOrder, upsert_metadata-get}
use jobsd.App.Instance.{
  SchedulerOnFinish, ensured, ensure_instance_metadata, load_instance_on_finish, on_finish_get,
  on_finish_set, on_finish_clear,
}

-- the name in the metadata that ensureInstanceMetadata returns
-- equality of texts is reflexive
str_eq_refl : (s : String) → str_eq s s ≡ true
str_eq_refl s = (eq_iff s s).1 refl

ensured_name :
    (name : String) (now : Time) (r : Result InstanceMetadata) {meta : InstanceMetadata}
    → ensured name now r ≡ ok meta
    → str_eq meta.instance_name name ≡ true
ensured_name name now (ok found) h = ground arith
ensured_name name now (err e) h = ground (arith, str_eq_refl name)
ensured_name name now hang h = ground arith

module _ (env : Env) (codec : Codec) where
  -- The store after an Upsert of metadata of the instance.
  stored-on_finish_get :
      (keys : List MetadataKey) (name : String) (later : Time) (meta : InstanceMetadata)
      (hook : Option OnFinishConfig) (db : Db) {db' : Db}
      → IsOrder keys
      → HookReadsBack env meta.on_finish hook
      → CodecRoundTrip codec meta.scheduler_port (format_time meta.created_at)
      → str_eq meta.instance_name name ≡ true
      → upsert_metadata env codec keys later meta db ≡ (ok tt, db')
      → db'.refuses db'.statements ≡ false
      → (on_finish_get env codec name db').0
        ≡ ok (record { instance_name = name; on_finish = hook })
  unfolding on_finish_get load_instance_on_finish
  stored-on_finish_get keys name later meta hook db {db'} order back texts same h free =
      let read =
        upsert_metadata-get env codec keys later meta hook db {db' = db'} order back texts h free in
      ground arith

  parsed_lem :
      (raw : String) {config : OnFinishConfig}
      → parse_on_finish_config_json env raw ≡ ok config
      → normalize_on_finish_config env config ≡ ok config
  unfolding parse_on_finish_config_json
  parsed_lem raw {config} h = go (env.unmarshal raw) refl
    where
      go :
          (r : Option OnFinishConfig)
          → env.unmarshal raw ≡ r
          → normalize_on_finish_config env config ≡ ok config
      go none link = ground arith
      go (some c) link =
          let normal = normalize_on_finish_config-IsNormal env c {d = config} (ground arith) in
          normalize_on_finish_config_of_IsNormal env config normal

  -- the commands that write the hook
  pub data HookCommand : Type 0 where
    set : String → HookCommand
    clear : HookCommand

  abbrev pub run_hook :
      HookCommand → List MetadataKey → String → Time → Time → Action Db SchedulerOnFinish
  run_hook (set raw) keys name now later = on_finish_set env codec keys name raw now later
  run_hook clear keys name now later = on_finish_clear env codec keys name now later

  abbrev pub HookIsStored : Option OnFinishConfig → Type 0
  HookIsStored none = Unit
  HookIsStored (some config) = JsonRoundTrip env config

  -- After `on-finish set` or `on-finish clear` that succeeded, `on-finish get` prints what that command
  -- printed, if the engine does not refuse its query, encoding/json reads back the hook, and the port and
  -- the creation that the instance had read back from their texts.
  pub on_finish_get-run_hook :
      (command : HookCommand) (keys : List MetadataKey) (name : String) (now later : Time)
      (meta : InstanceMetadata) (db : Db) {printed : SchedulerOnFinish} {db' : Db}
      → IsOrder keys
      → (ensure_instance_metadata env codec name now db).0 ≡ ok meta
      → CodecRoundTrip codec meta.scheduler_port (format_time meta.created_at)
      → run_hook command keys name now later db ≡ (ok printed, db')
      → HookIsStored printed.on_finish
      → db'.refuses db'.statements ≡ false
      → (on_finish_get env codec name db').0 ≡ ok printed
  unfolding on_finish_set on_finish_clear
  on_finish_get-run_hook clear keys name now later meta db {printed} {db'} order found texts h
        stored free =
      let same = ensured_name name now (get_metadata env codec db).0 {meta = meta} found in
      let mid = (ensure_instance_metadata env codec name now db).1 in
      let get =
        stored-on_finish_get keys name later (record meta { on_finish = none }) none mid {db' = db'}
          order tt texts same in
      ground arith
  on_finish_get-run_hook (set raw) keys name now later meta db {printed} {db'} order found texts h
        stored free =
      set_lem (parse_on_finish_config_json env raw) refl
    where
      set_lem :
          (r : Result OnFinishConfig)
          → parse_on_finish_config_json env raw ≡ r
          → (on_finish_get env codec name db').0 ≡ ok printed
      set_lem (ok config) link =
          let same = ensured_name name now (get_metadata env codec db).0 {meta = meta} found in
          let mid = (ensure_instance_metadata env codec name now db).1 in
          let normal = parsed_lem raw {config = config} link in
          let shown : printed.on_finish ≡ some config = ground arith in
          let json : JsonRoundTrip env config = subst HookIsStored shown stored in
          let get =
            stored-on_finish_get keys name later (record meta { on_finish = some config })
              (some config) mid {db' = db'} order (normal, json) texts same in
          ground arith
      set_lem (err e) link = ground arith
      set_lem hang link = ground arith
