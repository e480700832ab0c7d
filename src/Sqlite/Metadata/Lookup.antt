-- ===== src/Sqlite/Metadata/Lookup.antt =====
-- What an Upsert and a DELETE make of the value of a key.
use jobsd.Common.{
  Bool, true, false, ◌||◌, not, Option, none, some, List, [], ◌∷◌, String, if◌then◌else◌, select,
  ◌≡◌, refl, arith, ap, Bool-cases, inl, inr, eq_iff,
}
use jobsd.Result.{ok}
use jobsd.Action.{Action}
use jobsd.Sqlite.{Stamp, MetadataKey, MetadataRow}
use jobsd.Sqlite.Engine.{Db, tick}
use jobsd.Sqlite.Metadata.{
  same_key, put_row, put_value, Values, put_found, put_all, is_wanted, lookup,
}

same_key_refl : (k : MetadataKey) → same_key k k ≡ true
unfolding same_key
same_key_refl MetadataKey.instance_name = refl
same_key_refl MetadataKey.created_at = refl
same_key_refl MetadataKey.scheduler_port = refl
same_key_refl MetadataKey.on_finish_json = refl
same_key_refl (MetadataKey.unknown s) = (eq_iff s s).1 refl

same_key_sound : (j k : MetadataKey) → same_key j k ≡ true → j ≡ k
unfolding same_key
same_key_sound (MetadataKey.unknown s) (MetadataKey.unknown t) e =
    ap MetadataKey.unknown ((eq_iff s t).0 e)
same_key_sound j k e = ground arith

-- different keys are not both the same as a third
keys_apart :
    (j n k : MetadataKey) → same_key j n ≡ false → same_key j k ≡ true → same_key n k ≡ false
keys_apart j n k e h = elim (Bool-cases (same_key n k)) [
  | inl same ↦
      let a : j ≡ k = same_key_sound j k h in
      let b : n ≡ k = same_key_sound n k same in
      absurd (ground (arith, (rw (a, b) at e), same_key_refl k))
  | inr apart ↦ apart
]

lookup-put_row :
    (k : MetadataKey) (new : MetadataRow) (rows : List MetadataRow)
    → lookup k (put_row new rows) ≡ (if same_key new.key k then some new.value else lookup k rows)
unfolding lookup put_row
lookup-put_row k new [] = refl
lookup-put_row k new (r ∷ rs) = elim (Bool-cases (same_key r.key new.key)) [
  | inl e ↦
      let same : r.key ≡ new.key = same_key_sound r.key new.key e in rw (e, same) (ground arith)
  | inr e ↦ rw e (ground (arith, lookup-put_row k new rs, keys_apart r.key new.key k e))
]

pub lookup-wanted :
    (k : MetadataKey) (rows : List MetadataRow)
    → is_wanted k ≡ true
    → lookup k (select (λ r. is_wanted r.key) rows) ≡ lookup k rows
unfolding lookup select
lookup-wanted k [] w = refl
lookup-wanted k (r ∷ rs) w = elim (Bool-cases (same_key r.key k)) [
  | inl e ↦ let kept : is_wanted r.key ≡ true = rw (same_key_sound r.key k e) w in rw (kept, e) refl
  | inr e ↦ ground (arith, lookup-wanted k rs w)
]

pub lookup-deleted :
    (k : MetadataKey) (rows : List MetadataRow)
    → lookup k (select (λ r. not (same_key r.key k)) rows) ≡ none
unfolding lookup select
lookup-deleted k [] = refl
lookup-deleted k (r ∷ rs) = ground (arith, lookup-deleted k rs)

pub lookup-not_deleted :
    (k d : MetadataKey) (rows : List MetadataRow)
    → same_key d k ≡ false
    → lookup k (select (λ r. not (same_key r.key d)) rows) ≡ lookup k rows
unfolding lookup select
lookup-not_deleted k d [] h = refl
lookup-not_deleted k d (r ∷ rs) h = elim (Bool-cases (same_key r.key d)) [
  | inl e ↦
      let other : same_key r.key k ≡ false = rw (same_key_sound r.key d e) h in
      rw (e, other) (lookup-not_deleted k d rs h)
  | inr e ↦ ground (arith, lookup-not_deleted k d rs h)
]

-- the rows after the values have been put in the order of the keys
put_one : MetadataKey → Option String → Stamp → List MetadataRow → List MetadataRow
put_one key none at rows = rows
put_one key (some value) at rows =
    put_row (record { key = key; value = value; updated_at = at }) rows

pub put_rows : List MetadataKey → Values → Stamp → List MetadataRow → List MetadataRow
put_rows [] values at rows = rows
put_rows (key ∷ keys) values at rows = put_rows keys values at (put_one key (values key) at rows)

abbrev pub contains : MetadataKey → List MetadataKey → Bool
contains k [] = false
contains k (j ∷ js) = same_key j k || contains k js

abbrev pub or_else : Option String → Option String → Option String
or_else none d = d
or_else (some v) d = some v

lookup-put_one :
    (k j : MetadataKey) (value : Option String) (at : Stamp) (rows : List MetadataRow)
    → lookup k (put_one j value at rows)
      ≡ (if same_key j k then or_else value (lookup k rows) else lookup k rows)
unfolding put_one
lookup-put_one k j none at rows = ground arith
lookup-put_one k j (some v) at rows =
    lookup-put_row k (record { key = j; value = v; updated_at = at }) rows

pub lookup-put_rows :
    (k : MetadataKey) (keys : List MetadataKey) (values : Values) (at : Stamp)
    (rows : List MetadataRow)
    → lookup k (put_rows keys values at rows)
      ≡ (if contains k keys then or_else (values k) (lookup k rows) else lookup k rows)
unfolding put_rows
lookup-put_rows k [] values at rows = refl
lookup-put_rows k (j ∷ js) values at rows = elim (Bool-cases (same_key j k)) [
  | inl e ↦
      let same : j ≡ k = same_key_sound j k e in
      rw same (
        ground (
          arith,
          lookup-put_rows k js values at (put_one k (values k) at rows),
          lookup-put_one k k (values k) at rows,
          same_key_refl k,
        ))
  | inr e ↦ ground (
    arith,
    lookup-put_rows k js values at (put_one j (values j) at rows),
    lookup-put_one k j (values j) at rows,
  )
]

pub put_all_lem :
    (keys : List MetadataKey) (values : Values) (at : Stamp) (db : Db) {db' : Db}
    → put_all keys values at db ≡ (ok tt, db')
    → (db'.tables ≡ record db.tables { metadata = put_rows keys values at db.tables.metadata })
      × (db'.refuses ≡ db.refuses)
unfolding put_all put_rows put_one put_value
put_all_lem [] values at db h = ground arith
put_all_lem (key ∷ keys) values at db {db'} h =
    go (values key) (λ d e. put_all_lem keys values at d e) h
  where
    rest : Action Db Unit
    rest = put_all keys values at

    go :
        (o : Option String)
        → ((d : Db)
            → rest d ≡ (ok tt, db')
            → (db'.tables
                ≡ record d.tables { metadata = put_rows keys values at d.tables.metadata })
              × (db'.refuses ≡ d.refuses))
        → put_found key at rest o db ≡ (ok tt, db')
        → (db'.tables ≡ record db.tables {
          metadata = put_rows keys values at (put_one key o at db.tables.metadata);
        })
          × (db'.refuses ≡ db.refuses)
    go none ih e = ih db e
    go (some v) ih e =
        let row : MetadataRow = record { key = key; value = v; updated_at = at } in
        let stored : Db = record (tick db) {
          tables = record db.tables { metadata = put_row row db.tables.metadata };
        } in
        ground (arith, ih stored)
