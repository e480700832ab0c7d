-- ===== src/Sqlite/Metadata.antt =====
-- internal/sqlite/metadata_store.go: the metadata of an instance, a row for each key.
pub mod Lookup
pub mod Cell
use text.Mathlib.Text.{◌==◌ as str_eq}
use jobsd.Common.{
  ℕ, Bool, true, false, ◌||◌, not, Option, none, some, List, [], ◌∷◌, String, ℤ, if◌then◌else◌,
  is_none, select,
}
use jobsd.Result.{Error, metadata_not_found, metadata_corrupt, Result, ok, err, hang}
use jobsd.Result
use jobsd.Action.{Action, pure, lift, ◌>>=◌, ◌>>◌}
use jobsd.Domain.{Time, InstanceMetadata, OnFinishConfig}
use jobsd.Domain.OnFinish.{parse_on_finish_config_json, marshal_on_finish_config_json}
use jobsd.Env.{Env, Codec}
use jobsd.Sqlite.{Stamp, Tables, MetadataKey, MetadataRow, format_time}
use jobsd.Sqlite.Engine.{Db, exec, query, transaction}

unfoldable pub same_key : MetadataKey → MetadataKey → Bool
same_key MetadataKey.instance_name MetadataKey.instance_name = true
same_key MetadataKey.created_at MetadataKey.created_at = true
same_key MetadataKey.scheduler_port MetadataKey.scheduler_port = true
same_key MetadataKey.on_finish_json MetadataKey.on_finish_json = true
same_key (MetadataKey.unknown s) (MetadataKey.unknown t) = str_eq s t
same_key _ _ = false

-- INSERT … ON CONFLICT(key) DO UPDATE
unfoldable pub put_row : MetadataRow → List MetadataRow → List MetadataRow
put_row new [] = new ∷ []
put_row new (r ∷ rs) =
    let rest = put_row new rs in if same_key r.key new.key then new ∷ rs else r ∷ rest

unfoldable pub put_value : MetadataKey → String → Stamp → Tables → Result (Unit {0} × Tables)
put_value key value at t = ok (
  tt,
  record t { metadata = put_row (record { key = key; value = value; updated_at = at }) t.metadata },
)

-- DELETE FROM instance_metadata WHERE key = ?
unfoldable pub delete_key : MetadataKey → Tables → Result (Unit {0} × Tables)
delete_key key t =
    ok (tt, record t { metadata = select (λ r. not (same_key r.key key)) t.metadata })

-- a map[string]string, by its lookup
abbrev pub Values : Type 0
Values = MetadataKey → Option String

-- the keys of the map's literal
unfoldable pub values_of : Codec → InstanceMetadata → Option String → Values
values_of codec meta json MetadataKey.instance_name = some meta.instance_name
values_of codec meta json MetadataKey.created_at =
    some (codec.write_time (format_time meta.created_at))
values_of codec meta json MetadataKey.scheduler_port = some (codec.itoa meta.scheduler_port)
values_of codec meta json MetadataKey.on_finish_json = json
values_of codec meta json (MetadataKey.unknown s) = none

-- the round of the loop for a key, which is none if the map does not have it
abbrev pub put_found : MetadataKey → Stamp → Action Db Unit → Option String → Action Db Unit
put_found key at rest none = rest
put_found key at rest (some value) = exec (put_value key value at) >> rest

-- `for key, value := range values`, where `keys` is the order that the map is walked in
unfoldable pub put_all : List MetadataKey → Values → Stamp → Action Db Unit
unfolding put_value
put_all [] values at = pure tt
put_all (key ∷ keys) values at = put_found key at (put_all keys values at) (values key)

abbrev pub is_wanted : MetadataKey → Bool
is_wanted (MetadataKey.unknown s) = false
is_wanted _ = true

-- values[key] of Get; the key is the primary key of the table, so one row has it
unfoldable pub lookup : MetadataKey → List MetadataRow → Option String
lookup key [] = none
lookup key (r ∷ rs) = let rest = lookup key rs in if same_key r.key key then some r.value else rest

abbrev pub found_value : Option String → Result String
found_value none = err metadata_not_found
found_value (some v) = ok v

abbrev pub readable {ℓ} : {A : Type ℓ} → Option A → Result A
readable none = err metadata_corrupt
readable (some a) = ok a

-- what is made of an error of ParseOnFinishConfigJSON
abbrev pub corrupt_unless_ok {ℓ} : {A : Type ℓ} → Result A → Result A
corrupt_unless_ok (ok a) = ok a
corrupt_unless_ok (err e) = err metadata_corrupt
corrupt_unless_ok hang = hang

module _ (env : Env) (codec : Codec) where
  unfoldable pub stored_on_finish : Option String → Result (Option OnFinishConfig)
  stored_on_finish none = ok none
  stored_on_finish (some raw) =
      Result.◌>>=◌ (corrupt_unless_ok (parse_on_finish_config_json env raw)) λ c. ok (some c)

  -- what Get makes of the rows
  unfoldable pub decode_metadata : List MetadataRow → Result InstanceMetadata
  unfolding stored_on_finish
  decode_metadata rows = Result.◌>>=◌ (found_value (lookup MetadataKey.instance_name rows)) λ name.
      Result.◌>>=◌ (found_value (lookup MetadataKey.created_at rows)) λ created_raw.
        Result.◌>>=◌ (found_value (lookup MetadataKey.scheduler_port rows)) λ port_raw.
          Result.◌>>=◌ (readable (codec.read_time created_raw)) λ created_at.
            Result.◌>>=◌ (readable (codec.atoi port_raw)) λ port.
              Result.◌>>=◌ (stored_on_finish (lookup MetadataKey.on_finish_json rows)) λ on_finish.
                ok (record {
                  instance_name = name;
                  created_at = created_at;
                  scheduler_port = port;
                  on_finish = on_finish;
                })

  -- Get
  unfoldable pub get_metadata : Action Db InstanceMetadata
  get_metadata = do
    rows ← query (λ t. select (λ r. is_wanted r.key) t.metadata)
    lift (decode_metadata rows)

  -- Upsert; `now` is the time of the call
  unfoldable pub upsert_metadata : List MetadataKey → Time → InstanceMetadata → Action Db Unit
  unfolding delete_key
  upsert_metadata keys now meta = transaction do
    json ← lift (marshal_on_finish_config_json env meta.on_finish)
    put_all keys (values_of codec meta json) (format_time now)
    if is_none json then exec (delete_key MetadataKey.on_finish_json) else pure tt

  -- SetOnFinish
  unfoldable pub set_on_finish : List MetadataKey → Time → Option OnFinishConfig → Action Db Unit
  set_on_finish keys now config = do
    meta ← get_metadata
    upsert_metadata keys now (record meta { on_finish = config })
