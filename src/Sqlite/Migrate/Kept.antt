-- ===== src/Sqlite/Migrate/Kept.antt =====
-- Migrate returns, and keeps what the scripts keep.
use jobsd.Common.{Option, none, some, List, [], ◌∷◌, String, ℤ, ◌≡◌, ◌≢◌, subst, arith}
use jobsd.Common.Text.{Runes}
use jobsd.Result.{Result, ok, hang}
use jobsd.Domain.{Time}
use jobsd.Sqlite.{Stamp, Tables, MigrationRow, format_time}
use jobsd.Sqlite.Engine.Keeps.{
  Keeps, Keeps-bind, Keeps-pure, Keeps-lift, Keeps-query, Keeps-exec, Keeps-if, Keeps-transaction,
}
use jobsd.Sqlite.Engine.Returns.{
  Returns, Returns-bind, Returns-pure, Returns-lift, Returns-query, Returns-exec, Returns-if,
  Returns-transaction,
}
use jobsd.Sqlite.Migrate.{
  Migration, Entry, or_invalid, migration_version, read_entry, read_entries, load_migrations,
  existing, load_applied_versions, is_applied, insert_version, apply_migration, apply_all, migrate,
  ensure_schema_migrations_table,
}

or_invalid_returns : {A : Type 0} (e : String) (a : Option A) → or_invalid e a ≢ hang
or_invalid_returns e none p = cc
or_invalid_returns e (some a) p = cc

read_entry_returns : (atoi : Runes → Option ℤ) (entry : Entry) → read_entry atoi entry ≢ hang
unfolding read_entry migration_version
read_entry_returns atoi entry p = ground arith

read_entries_returns :
    (atoi : Runes → Option ℤ) (entries : List Entry) → read_entries atoi entries ≢ hang
unfolding read_entries
read_entries_returns atoi [] p = cc
read_entries_returns atoi (entry ∷ entries) p =
    let rest = read_entries_returns atoi entries in
    let first = read_entry_returns atoi entry in ground arith

load_migrations_returns :
    (atoi : Runes → Option ℤ) (entries : List Entry) → load_migrations atoi entries ≢ hang
unfolding load_migrations
load_migrations_returns atoi entries p =
    let rest = read_entries_returns atoi entries in ground arith

existing_returns : {A : Type 0} (a : Option A) → existing a ≢ hang
existing_returns none p = cc
existing_returns (some a) p = cc

insert_version_returns : (v : ℤ) (at : Stamp) (t : Tables) → insert_version v at t ≢ hang
unfolding insert_version
insert_version_returns v at t p = ground arith

-- What a script does to the tables: it comes to an end, and keeps a property.
pub record ScriptKeeps (P : Tables → Type 0) (script : String → Tables → Result (Unit {0} × Tables))
    : Type 0 where
  pub ends : (sql : String) (t : Tables) → script sql t ≢ hang
  pub keeps :
      (sql : String) (t : Tables)
      → P t
      → (u : Unit {0}) (t' : Tables) → script sql t ≡ ok (u, t')
      → P t'

-- A property that does not speak of the migrations that have been applied.
pub record IgnoresVersions (P : Tables → Type 0) : Type 0 where
  pub versions :
      (t : Tables) (rows : Option (List MigrationRow))
      → P t
      → P (record t { schema_migrations = rows })

module _ (P : Tables → Type 0) (script : String → Tables → Result (Unit {0} × Tables))
    (now : ℤ → Time) (s : ScriptKeeps P script) (g : IgnoresVersions P) where
  insert_version-kept :
      (v : ℤ) (at : Stamp) (t : Tables)
      → P t
      → (u : Unit {0}) (t' : Tables) → insert_version v at t ≡ ok (u, t')
      → P t'
  unfolding insert_version
  insert_version-kept v at t h u t' e = subst P (ground arith) (g.versions t t'.schema_migrations h)

  apply_migration-kept : (m : Migration) → Keeps P (apply_migration script now m)
  unfolding apply_migration
  apply_migration-kept m = Keeps-transaction _ (
      Keeps-bind _ _ (Keeps-exec (script m.sql) (s.keeps m.sql))
        (λ u. Keeps-exec _ (insert_version-kept m.version (format_time (now m.version)))))

  apply_migration-Returns : (m : Migration) → Returns (apply_migration script now m)
  unfolding apply_migration
  apply_migration-Returns m = Returns-transaction _ (
      Returns-bind _ _ (Returns-exec (script m.sql) (s.ends m.sql))
        (λ u. Returns-exec _ (insert_version_returns m.version (format_time (now m.version)))))

  apply_all-kept :
      (rows : List MigrationRow) (ms : List Migration) → Keeps P (apply_all script now rows ms)
  unfolding apply_all
  apply_all-kept rows [] = Keeps-pure tt
  apply_all-kept rows (m ∷ ms) =
      let rest = apply_all-kept rows ms in
      Keeps-if (is_applied m.version rows) _ _ rest
        (Keeps-bind _ _ (apply_migration-kept m) (λ u. rest))

  apply_all-Returns :
      (rows : List MigrationRow) (ms : List Migration) → Returns (apply_all script now rows ms)
  unfolding apply_all
  apply_all-Returns rows [] = Returns-pure tt
  apply_all-Returns rows (m ∷ ms) =
      let rest = apply_all-Returns rows ms in
      Returns-if (is_applied m.version rows) _ _ rest
        (Returns-bind _ _ (apply_migration-Returns m) (λ u. rest))

  pub migrate-kept :
      (atoi : Runes → Option ℤ) (entries : List Entry) → Keeps P (migrate script now atoi entries)
  unfolding migrate load_applied_versions
  migrate-kept atoi entries = Keeps-bind _ _ (Keeps-lift (load_migrations atoi entries)) (λ ms.
      Keeps-bind _ _
        (Keeps-exec ensure_schema_migrations_table
          (λ t h u t' e. subst P (ground arith) (g.versions t t'.schema_migrations h)))
        (λ u.
          Keeps-bind _ _
            (Keeps-bind _ _ (Keeps-query (λ t. t.schema_migrations))
              (λ rows. Keeps-lift (existing rows)))
            (λ applied. apply_all-kept applied ms)))

  pub migrate-Returns :
      (atoi : Runes → Option ℤ) (entries : List Entry) → Returns (migrate script now atoi entries)
  unfolding migrate load_applied_versions
  migrate-Returns atoi entries =
      Returns-bind _ _ (Returns-lift _ (load_migrations_returns atoi entries)) (λ ms.
        Returns-bind _ _ (Returns-exec ensure_schema_migrations_table (λ t e. cc)) (λ u.
          Returns-bind _ _
            (Returns-bind _ _ (Returns-query (λ t. t.schema_migrations))
              (λ rows. Returns-lift _ (existing_returns rows)))
            (λ applied. apply_all-Returns applied ms)))
