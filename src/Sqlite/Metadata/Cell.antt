-- ===== src/Sqlite/Metadata/Cell.antt =====
-- The metadata store as one cell: what Get reads is what the last Upsert was given.
use jobsd.Common.{
  true, false, not, Option, none, some, List, String, if◌then◌else◌, is_none, select, ◌≡◌, refl,
  arith,
}
use jobsd.Result.{Error, engine, Result, ok, err, hang}
use jobsd.Action.{Action, pure, continue}
use jobsd.Domain.{Time, InstanceMetadata, OnFinishConfig}
use jobsd.Domain.OnFinish.{marshal_on_finish_config_json}
use jobsd.Domain.OnFinish.Normal.{HookReadsBack, ParsesTo, marshal-ParsesTo}
use jobsd.Env.{Env, Codec, CodecRoundTrip}
use jobsd.Sqlite.{Stamp, MetadataKey, MetadataRow, format_time, parse_time}
use jobsd.Sqlite.Engine.{Db, exec, tick, finish}
use jobsd.Sqlite.Metadata.{
  same_key, delete_key, Values, values_of, put_all, lookup, decode_metadata, stored_on_finish,
  get_metadata, upsert_metadata,
}
use jobsd.Sqlite.Metadata.Lookup.{
  lookup-wanted, lookup-deleted, lookup-not_deleted, put_rows, lookup-put_rows, put_all_lem,
  contains,
}

-- every key of the map stands in the order that it is walked in
abbrev pub IsOrder : List MetadataKey → Type 0
IsOrder keys =
    (contains MetadataKey.instance_name keys ≡ true)
    × (contains MetadataKey.created_at keys ≡ true)
    × (contains MetadataKey.scheduler_port keys ≡ true)
    × (contains MetadataKey.on_finish_json keys ≡ true)

module _ (env : Env) (codec : Codec) where
  stored_lem :
      (json : Option String) (n : Option OnFinishConfig)
      → ParsesTo env json n
      → stored_on_finish env codec json ≡ ok n
  unfolding stored_on_finish
  stored_lem none none h = refl
  stored_lem none (some d) h = absurd h
  stored_lem (some text) none h = absurd h
  stored_lem (some text) (some d) h = rw h refl

  abbrev rows_after :
      List MetadataKey
      → Time
      → InstanceMetadata
      → Option String
      → List MetadataRow
      → List MetadataRow
  rows_after keys now meta json rows =
      let written = put_rows keys (values_of codec meta json) (format_time now) rows in
      if is_none json
      then select (λ r. not (same_key r.key MetadataKey.on_finish_json)) written
      else written

  upsert_lem :
      (keys : List MetadataKey) (now : Time) (meta : InstanceMetadata) (json : Option String)
      (db : Db) {db' : Db}
      → marshal_on_finish_config_json env meta.on_finish ≡ ok json
      → upsert_metadata env codec keys now meta db ≡ (ok tt, db')
      → db'.tables.metadata ≡ rows_after keys now meta json db.tables.metadata
  unfolding upsert_metadata
  upsert_lem keys now meta json db {db'} written h =
      go (put_all keys values at (tick db)).0 (put_all keys values at (tick db)).1 refl
        (rw written at h)
    where
      values : Values
      values = values_of codec meta json

      at : Stamp
      at = format_time now

      last : Action Db Unit
      last = if is_none json then exec (delete_key MetadataKey.on_finish_json) else pure tt

      go :
          (r : Result Unit) (d : Db)
          → put_all keys values at (tick db) ≡ (r, d)
          → (if db.refuses db.statements
              then (err engine, tick db)
              else finish db.tables (continue r (λ u. last) d))
            ≡ (ok tt, db')
          → db'.tables.metadata ≡ rows_after keys now meta json db.tables.metadata
      go (ok u) d link e =
          let put = put_all_lem keys values at (tick db) {db' = d} link in
          unfold delete_key in ground arith
      go (err x) d link e = ground arith
      go hang d link e = ground arith

  lookup_after :
      (k : MetadataKey) (keys : List MetadataKey) (now : Time) (meta : InstanceMetadata)
      (json : Option String) (rows : List MetadataRow) {v : String}
      → contains k keys ≡ true
      → same_key MetadataKey.on_finish_json k ≡ false
      → values_of codec meta json k ≡ some v
      → lookup k (rows_after keys now meta json rows) ≡ some v
  lookup_after k keys now meta json rows there other value =
      let written = put_rows keys (values_of codec meta json) (format_time now) rows in
      ground (
        arith,
        lookup-put_rows k keys (values_of codec meta json) (format_time now) rows,
        lookup-not_deleted k MetadataKey.on_finish_json written other,
      )

  hook_after :
      (keys : List MetadataKey) (now : Time) (meta : InstanceMetadata) (json : Option String)
      (rows : List MetadataRow)
      → contains MetadataKey.on_finish_json keys ≡ true
      → lookup MetadataKey.on_finish_json (rows_after keys now meta json rows) ≡ json
  unfolding values_of
  hook_after keys now meta none rows there = lookup-deleted MetadataKey.on_finish_json _
  hook_after keys now meta (some v) rows there = ground (
    arith,
    lookup-put_rows MetadataKey.on_finish_json keys (values_of codec meta (some v))
        (format_time now) rows,
  )

  -- After an Upsert that succeeded, in whatever order it walked its map, Get returns what was given,
  -- its hook completed and its creation to the second, if the engine does not refuse the query and
  -- the stored texts read back.
  pub upsert_metadata-get :
      (keys : List MetadataKey) (now : Time) (meta : InstanceMetadata)
      (hook : Option OnFinishConfig) (db : Db) {db' : Db}
      → IsOrder keys
      → HookReadsBack env meta.on_finish hook
      → CodecRoundTrip codec meta.scheduler_port (format_time meta.created_at)
      → upsert_metadata env codec keys now meta db ≡ (ok tt, db')
      → db'.refuses db'.statements ≡ false
      → (get_metadata env codec db').0
        ≡ ok (record meta {
          created_at = parse_time (format_time meta.created_at);
          on_finish = hook;
        })
  unfolding get_metadata decode_metadata same_key values_of
  upsert_metadata-get keys now meta hook db {db'} order back texts h free =
      let (json, written, parses) = marshal-ParsesTo env meta.on_finish hook back in
      let parsed = stored_lem json hook parses in
      let rows = rows_after keys now meta json db.tables.metadata in
      let stored = upsert_lem keys now meta json db {db' = db'} written h in
      let name =
        lookup_after MetadataKey.instance_name keys now meta json db.tables.metadata
          {v = meta.instance_name} order.0 refl refl in
      let created =
        lookup_after MetadataKey.created_at keys now meta json db.tables.metadata
          {v = codec.write_time (format_time meta.created_at)} order.1 refl refl in
      let port =
        lookup_after MetadataKey.scheduler_port keys now meta json db.tables.metadata
          {v = codec.itoa meta.scheduler_port} order.2 refl refl in
      let json_back = hook_after keys now meta json db.tables.metadata order.3 in
      rw
        (
          free,
          stored,
          lookup-wanted MetadataKey.instance_name rows refl,
          lookup-wanted MetadataKey.created_at rows refl,
          lookup-wanted MetadataKey.scheduler_port rows refl,
          lookup-wanted MetadataKey.on_finish_json rows refl,
          name,
          created,
          port,
          json_back,
          texts.time_back,
          texts.number_back,
          parsed,
        )
        refl

  -- An Upsert that fails, at whatever statement, leaves every table as it was.
  pub upsert_metadata_atomic :
      (keys : List MetadataKey) (now : Time) (meta : InstanceMetadata) (db : Db) {e : Error}
      → (upsert_metadata env codec keys now meta db).0 ≡ err e
      → (upsert_metadata env codec keys now meta db).1.tables ≡ db.tables
  unfolding upsert_metadata
  upsert_metadata_atomic keys now meta db h = ground arith
