-- ===== src/Sqlite/Migrate/Once.antt =====
-- Migrate applies a migration once: a run after one that succeeded changes no table.
use jobsd.Common.{
  Bool, true, false, ◌&&◌, Option, none, some, List, [], ◌∷◌, String, ℤ, pos, negsuc, ◌≡◌, refl,
  arith, Bool-cases, inl, inr,
}
use jobsd.Common.Int.{same_int}
use jobsd.Common.Text.{Runes}
use jobsd.Result.{Result, ok, err, hang}
use jobsd.Action.{Action, ◌>>=◌, ◌>>◌}
use jobsd.Domain.{Time}
use jobsd.Sqlite.{Tables, MigrationRow, format_time}
use jobsd.Sqlite.Engine.{Db, exec, tick}
use jobsd.Sqlite.Migrate.{
  Migration, Entry, is_applied, apply_migration, apply_all, migrate, insert_version,
  load_migrations, load_applied_versions, ensure_schema_migrations_table,
}

-- the scripts of the migrations leave the versions that are applied
abbrev pub KeepsVersions : (String → Tables → Result (Unit {0} × Tables)) → Type 0
KeepsVersions script =
    (sql : String) (t t' : Tables)
    → script sql t ≡ ok (tt, t')
    → t'.schema_migrations ≡ t.schema_migrations

-- the rows of the versions, none if there is no table
abbrev rows_of : Option (List MigrationRow) → List MigrationRow
rows_of none = []
rows_of (some rows) = rows

abbrev versions : Db → List MigrationRow
versions db = rows_of db.tables.schema_migrations

abbrev new_row : (ℤ → Time) → Migration → MigrationRow
new_row now m = record { version = m.version; applied_at = format_time (now m.version) }

unfoldable all_applied : List Migration → List MigrationRow → Bool
unfolding is_applied
all_applied [] rows = true
all_applied (m ∷ ms) rows = is_applied m.version rows && all_applied ms rows

-- the table is there, and has the versions of the migrations
abbrev all_recorded : List Migration → Option (List MigrationRow) → Bool
all_recorded ms none = false
all_recorded ms (some rows) = all_applied ms rows

same_int_refl : (v : ℤ) → same_int v v ≡ true
same_int_refl (pos n) = ground arith
same_int_refl (negsuc n) = ground arith

module _ (script : String → Tables → Result (Unit {0} × Tables)) (now : ℤ → Time) where
  apply_all-applied :
      (rows : List MigrationRow) (ms : List Migration) (db : Db)
      → all_applied ms rows ≡ true
      → apply_all script now rows ms db ≡ (ok tt, db)
  unfolding apply_all all_applied
  apply_all-applied rows [] db h = refl
  apply_all-applied rows (m ∷ ms) db h = let rest = apply_all-applied rows ms db in ground arith

  module _ (keeps : KeepsVersions script) where
    apply_migration-adds :
        (m : Migration) (db : Db) {db' : Db}
        → apply_migration script now m db ≡ (ok tt, db')
        → db'.tables.schema_migrations ≡ some (new_row now m ∷ versions db)
    unfolding apply_migration insert_version
    apply_migration-adds m db {db'} h = go (script m.sql db.tables) refl h
      where
        go :
            (r : Result (Unit {0} × Tables))
            → script m.sql db.tables ≡ r
            → apply_migration script now m db ≡ (ok tt, db')
            → db'.tables.schema_migrations ≡ some (new_row now m ∷ versions db)
        go (ok (tt, t')) link h = let kept = keeps m.sql db.tables t' link in ground arith
        go (err e) link h = ground arith
        go hang link h = ground arith

    apply_all-grows :
        (rows : List MigrationRow) (ms : List Migration) (v : ℤ) (db : Db) {db' : Db}
        → apply_all script now rows ms db ≡ (ok tt, db')
        → is_applied v (versions db) ≡ true
        → is_applied v (versions db') ≡ true
    unfolding apply_all is_applied
    apply_all-grows rows [] v db h known = ground arith
    apply_all-grows rows (m ∷ ms) v db {db'} h known =
        go (apply_migration script now m db).0 (apply_migration script now m db).1 refl
          (λ d. apply_all-grows rows ms v d {db' = db'})
      where
        go :
            (r : Result Unit) (d : Db)
            → apply_migration script now m db ≡ (r, d)
            → ((d : Db)
                → apply_all script now rows ms d ≡ (ok tt, db')
                → is_applied v (versions d) ≡ true
                → is_applied v (versions db') ≡ true)
            → is_applied v (versions db') ≡ true
        go (ok u) d link later =
            let added = apply_migration-adds m db {db' = d} in
            let here = later db in let there = later d in ground arith
        go (err e) d link later = let here = later db in ground arith
        go hang d link later = let here = later db in ground arith

    apply_all_complete :
        (rows known_rows : List MigrationRow) (ms : List Migration) (db : Db) {db' : Db}
        → apply_all script now rows ms db ≡ (ok tt, db')
        → db.tables.schema_migrations ≡ some known_rows
        → ((v : ℤ) → is_applied v rows ≡ true → is_applied v known_rows ≡ true)
        → all_recorded ms db'.tables.schema_migrations ≡ true
    unfolding apply_all is_applied all_applied
    apply_all_complete rows known_rows [] db h there known = ground arith
    apply_all_complete rows known_rows (m ∷ ms) db {db'} h there known =
        go (apply_migration script now m db).0 (apply_migration script now m db).1 refl
          (λ d r. apply_all_complete rows r ms d {db' = db'})
      where
        go :
            (r : Result Unit) (d : Db)
            → apply_migration script now m db ≡ (r, d)
            → ((d : Db) (r : List MigrationRow)
                → apply_all script now rows ms d ≡ (ok tt, db')
                → d.tables.schema_migrations ≡ some r
                → ((v : ℤ) → is_applied v rows ≡ true → is_applied v r ≡ true)
                → all_recorded ms db'.tables.schema_migrations ≡ true)
            → all_recorded (m ∷ ms) db'.tables.schema_migrations ≡ true
        go r d link later = elim (Bool-cases (is_applied m.version rows)) [
          | inl old ↦
              let rest = later db known_rows (ground arith) there known in
              let same = known m.version old in
              let grown = apply_all-grows rows ms m.version db {db' = db'} in ground arith
          | inr new ↦
              let added = apply_migration-adds m db {db' = d} (ground arith) in
              let there' : d.tables.schema_migrations ≡ some (new_row now m ∷ known_rows) =
                ground arith in
              let rest =
                later d (new_row now m ∷ known_rows) (ground arith) there'
                  (λ v old. let same = known v old in ground arith) in
              let same = same_int_refl m.version in
              let grown = apply_all-grows rows ms m.version d {db' = db'} in ground arith
        ]

  -- the rest of Migrate, on the migrations that are loaded
  unfoldable run_loaded : List Migration → Action Db Unit
  unfolding load_applied_versions
  run_loaded ms = do
    exec ensure_schema_migrations_table
    applied ← load_applied_versions
    apply_all script now applied ms

  run_loaded_complete :
      (ms : List Migration) (db : Db) {db' : Db}
      → KeepsVersions script
      → run_loaded ms db ≡ (ok tt, db')
      → all_recorded ms db'.tables.schema_migrations ≡ true
  unfolding run_loaded
  run_loaded_complete ms db {db'} keeps h =
      let ready : Db = record (tick (tick db)) {
        tables = record db.tables { schema_migrations = some (versions db) };
      } in
      apply_all_complete keeps (versions db) (versions db) ms ready {db' = db'} (ground arith) refl
        (λ v old. old)

  run_loaded-again :
      (ms : List Migration) (db : Db)
      → all_recorded ms db.tables.schema_migrations ≡ true
      → ((run_loaded ms db).1.tables ≡ db.tables)
        × ((run_loaded ms (record db { refuses = λ _. false })).0 ≡ ok tt)
  unfolding run_loaded
  run_loaded-again ms db all =
      let skip = apply_all-applied (versions db) ms (tick (tick db)) in
      let calm : Db = record db { refuses = λ _. false } in
      let skip' = apply_all-applied (versions db) ms (tick (tick calm)) in
      (ground arith, ground arith)

-- After a run that succeeded on migrations whose scripts keep the applied versions, a run on the
-- tables that it left, at any time, with any number of statements before it and whichever of its
-- statements are refused, changes no table, and succeeds if none is refused.
pub migrate-migrate :
    (script : String → Tables → Result (Unit {0} × Tables)) (now now' : ℤ → Time)
    (atoi : Runes → Option ℤ) (entries : List Entry) (db later : Db) {db' : Db}
    → KeepsVersions script
    → migrate script now atoi entries db ≡ (ok tt, db')
    → later.tables ≡ db'.tables
    → ((migrate script now' atoi entries later).1.tables ≡ db'.tables)
      × ((migrate script now' atoi entries (record later { refuses = λ _. false })).0 ≡ ok tt)
unfolding migrate load_applied_versions
migrate-migrate script now now' atoi entries db later {db'} keeps h same =
    go (load_migrations atoi entries) refl
  where
    go :
        (r : Result (List Migration))
        → load_migrations atoi entries ≡ r
        → ((migrate script now' atoi entries later).1.tables ≡ db'.tables)
          × ((migrate script now' atoi entries (record later { refuses = λ _. false })).0 ≡ ok tt)
    go (ok ms) link =
        let all = run_loaded_complete script now ms db {db' = db'} keeps in
        let again = run_loaded-again script now' ms later in
        unfold run_loaded in (ground arith, ground arith)
    go (err e) link = ground arith
    go hang link = ground arith
