-- ===== src/Sqlite/Migrate.antt =====
-- internal/sqlite/migrate.go: the embedded migrations, each applied once. `script` is what the engine
-- makes of the text of a migration, and `atoi` is strconv.Atoi.
pub mod Once
pub mod Kept
use jobsd.Common.{
  ℕ, ◌==◌, Bool, true, false, not, ◌||◌, ◌&&◌, Option, none, some, List, [], ◌∷◌, String, ℤ,
  if◌then◌else◌,
}
use jobsd.Common.Int.{same_int, int_below}
use jobsd.Common.Text.{Runes, runes, text_eq}
use jobsd.Result.{Error, engine, constraint, system, invalid, Result, ok, err, hang, refuse_if}
use jobsd.Result
use jobsd.Action.{Action, pure, lift, ◌>>=◌, ◌>>◌}
use jobsd.Domain.{Time}
use jobsd.Sqlite.{Stamp, Tables, MigrationRow, format_time}
use jobsd.Sqlite.Engine.{Db, exec, query, transaction}

pub record Migration : Type 0 where
  pub version : ℤ
  pub name : Runes
  pub sql : String

-- an entry of the embedded directory; its content is none if ReadFile fails
pub record Entry : Type 0 where
  pub name : Runes
  pub is_dir : Bool
  pub content : Option String

-- path.Ext of a name, which has no slash: what stands from its last dot on
unfoldable pub extension : Runes → Runes
extension [] = []
extension (c ∷ s) = let rest = extension s in or_from rest (c ∷ s) (c == b'.')
  where
    or_from : Runes → Runes → Bool → Runes
    or_from [] whole true = whole
    or_from [] whole false = []
    or_from (d ∷ rest) whole dot = d ∷ rest

-- the first part of strings.Cut at an underscore, if there is one
unfoldable pub cut_prefix : Runes → Option Runes
cut_prefix [] = none
cut_prefix (c ∷ s) = let rest = cut_prefix s in if c == b'_' then some [] else put_front c rest
  where
    put_front : ℕ → Option Runes → Option Runes
    put_front c none = none
    put_front c (some p) = some (c ∷ p)

abbrev pub or_invalid {ℓ} : {A : Type ℓ} → String → Option A → Result A
or_invalid e none = err (invalid e)
or_invalid e (some a) = ok a

unfoldable pub migration_version : (Runes → Option ℤ) → Runes → Result ℤ
unfolding cut_prefix
migration_version atoi file_name =
    Result.◌>>=◌ (or_invalid "no version prefix" (cut_prefix file_name))
      λ prefix. or_invalid "parse migration version" (atoi prefix)

abbrev pub or_system {ℓ} : {A : Type ℓ} → Option A → Result A
or_system none = err system
or_system (some a) = ok a

-- a round of the loop of loadMigrations
unfoldable pub read_entry : (Runes → Option ℤ) → Entry → Result Migration
unfolding migration_version
read_entry atoi entry = Result.◌>>=◌ (migration_version atoi entry.name) λ version.
    Result.◌>>=◌ (or_system entry.content)
      λ content. ok (record { version = version; name = entry.name; sql = content })

unfoldable pub read_entries : (Runes → Option ℤ) → List Entry → Result (List Migration)
unfolding extension read_entry
read_entries atoi [] = ok []
read_entries atoi (entry ∷ entries) =
    let rest = read_entries atoi entries in
    if entry.is_dir || not (text_eq (extension entry.name) (runes ".sql"))
    then rest
    else Result.◌>>=◌ (read_entry atoi entry) λ first. Result.◌>>=◌ rest λ later. ok (first ∷ later)

-- sort.Slice by the version
unfoldable pub insert_migration : Migration → List Migration → List Migration
insert_migration m [] = m ∷ []
insert_migration m (x ∷ xs) =
    let rest = insert_migration m xs in
    if int_below x.version m.version then x ∷ rest else m ∷ x ∷ xs

unfoldable pub sort_migrations : List Migration → List Migration
unfolding insert_migration
sort_migrations [] = []
sort_migrations (m ∷ ms) = insert_migration m (sort_migrations ms)

unfoldable pub load_migrations : (Runes → Option ℤ) → List Entry → Result (List Migration)
unfolding read_entries sort_migrations
load_migrations atoi entries =
    Result.◌>>=◌ (read_entries atoi entries) λ ms. ok (sort_migrations ms)

abbrev pub created_table : Option (List MigrationRow) → Option (List MigrationRow)
created_table none = some []
created_table (some rows) = some rows

-- CREATE TABLE IF NOT EXISTS
abbrev pub ensure_schema_migrations_table : Tables → Result (Unit {0} × Tables)
ensure_schema_migrations_table t =
    ok (tt, record t { schema_migrations = created_table t.schema_migrations })

-- a lookup in the set that loadAppliedVersions returns
unfoldable pub is_applied : ℤ → List MigrationRow → Bool
is_applied v [] = false
is_applied v (r ∷ rs) = same_int r.version v || is_applied v rs

-- a statement on a table that is not there
abbrev pub existing {ℓ} : {A : Type ℓ} → Option A → Result A
existing none = err engine
existing (some rows) = ok rows

unfoldable pub load_applied_versions : Action Db (List MigrationRow)
load_applied_versions = query (λ t. t.schema_migrations) >>= λ rows. lift (existing rows)

abbrev pub with_version :
    ℤ → Stamp → Tables → Option (List MigrationRow) → Result (Unit {0} × Tables)
with_version v at t none = err engine
with_version v at t (some rows) =
    if is_applied v rows
    then err constraint
    else ok (
      tt,
      record t { schema_migrations = some ((record { version = v; applied_at = at }) ∷ rows) },
    )

-- the INSERT of applyMigration; the version is the primary key
unfoldable pub insert_version : ℤ → Stamp → Tables → Result (Unit {0} × Tables)
insert_version v at t = with_version v at t t.schema_migrations

module _ (script : String → Tables → Result (Unit {0} × Tables)) (now : ℤ → Time) where
  -- applyMigration; `now` is the time at which a version is applied
  unfoldable pub apply_migration : Migration → Action Db Unit
  unfolding insert_version
  apply_migration m =
      transaction
        (exec (script m.sql) >> exec (insert_version m.version (format_time (now m.version))))

  -- the loop of Migrate
  unfoldable pub apply_all : List MigrationRow → List Migration → Action Db Unit
  unfolding is_applied apply_migration
  apply_all applied [] = pure tt
  apply_all applied (m ∷ ms) =
      if is_applied m.version applied
      then apply_all applied ms
      else apply_migration m >> apply_all applied ms

  -- Migrate
  unfoldable pub migrate : (Runes → Option ℤ) → List Entry → Action Db Unit
  unfolding load_migrations load_applied_versions apply_all
  migrate atoi entries = do
    migrations ← lift (load_migrations atoi entries)
    exec ensure_schema_migrations_table
    applied ← load_applied_versions
    apply_all applied migrations
