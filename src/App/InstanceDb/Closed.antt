-- ===== src/App/InstanceDb/Closed.antt =====
-- A command closes the database that it has opened, whatever fails, and keeps what its work keeps.
use jobsd.Common.{true, false, not, ◌||◌, String, ◌≡◌, ◌≢◌, refl, sym, subst, arith}
use jobsd.Result.{Result, ok, err, hang, is_ok}
use jobsd.Action.{Action, continue, ◌>>=◌}
use jobsd.Sqlite.{Tables}
use jobsd.Sqlite.Engine.{Db}
use jobsd.Sqlite.Engine.Keeps.{Keeps}
use jobsd.Sqlite.Engine.Returns.{Returns}
use jobsd.Sqlite.Migrate.{migrate}
use jobsd.Sqlite.Migrate.Kept.{ScriptKeeps, IgnoresVersions, migrate-kept, migrate-Returns}
use jobsd.Config.{Paths, Places, validate_instance_name, resolve_data_base_dir, resolve_paths}
use jobsd.Daemon.Server.{World, on_db, open_database, close_database, close_on_error, apply_pragmas}
use jobsd.Output.{Terminal}
use jobsd.Output.Ends.{Ends}
use jobsd.App.InstanceDb.{
  Setup, Session, on_world, on_terminal, work_and_print, open_instance_db, closing,
  with_instance_db,
}

-- A database that is closed, with tables that have a property.
abbrev pub LeftClosed : (Tables → Type 0) → World → Type 0
LeftClosed P w = (w.db_open ≡ false) × P w.db.tables

-- what has been opened is open, and what has failed is closed
abbrev Opened : (Tables → Type 0) → Result (Unit {0}) × World → Type 0
Opened P (ok u, w) = P w.db.tables
Opened P (err e, w) = LeftClosed P w
Opened P (hang, w) = ⊥

-- what a command leaves, which comes to an end
abbrev pub Done : (Tables → Type 0) → Result (Unit {0}) × Session → Type 0
Done P (ok a, c) = LeftClosed P c.world
Done P (err e, c) = LeftClosed P c.world
Done P (hang, c) = ⊥

pub close_database_closed :
    (w : World) → ((close_database w).1.db_open ≡ false) × ((close_database w).1.db ≡ w.db)
close_database_closed w = (ground arith, ground arith)

open_database_returns :
    (w : World)
    → ((open_database w).0 ≢ hang)
      × ((open_database w).1.db.tables ≡ w.db.tables)
      × (w.db_open ≡ false → (is_ok (open_database w).0 || not (open_database w).1.db_open) ≡ true)
unfolding open_database apply_pragmas
open_database_returns w = (λ e. ground arith, ground arith, λ shut. ground arith)

resolve_paths_returns : (places : Places) (name : String) → resolve_paths places name ≢ hang
unfolding resolve_paths validate_instance_name resolve_data_base_dir
resolve_paths_returns places name e = ground arith

module _ (P : Tables → Type 0) where
  closed : (w : World) → P w.db.tables → LeftClosed P (close_database w).1
  closed w h =
      let (shut, same) = close_database_closed w in
      (shut, subst (λ (db : Db). P db.tables) (sym same) h)

  opened :
      (r : Result (Unit {0})) (w : World)
      → r ≢ hang
      → P w.db.tables
      → (is_ok r || not w.db_open) ≡ true
      → Opened P (r, w)
  opened (ok u) w back h shut = h
  opened (err e) w back h shut = (ground arith, h)
  opened hang w back h shut = absurd (back refl)

  open_database-Opened : (w : World) → LeftClosed P w → Opened P (open_database w)
  open_database-Opened w h =
      let (back, same, shut) = open_database_returns w in
      opened (open_database w).0 (open_database w).1 back (subst P (sym same) h.1) (shut h.0)

  close_on_error-Opened :
      (r : Result (Unit {0})) (w : World)
      → r ≢ hang
      → P w.db.tables
      → Opened P (close_on_error (r, w))
  close_on_error-Opened (ok u) w back h = h
  close_on_error-Opened (err e) w back h = closed w h
  close_on_error-Opened hang w back h = absurd (back refl)

  closing-Done :
      (r : Result (Unit {0})) (c : Session)
      → r ≢ hang
      → P c.world.db.tables
      → Done P (closing (r, c))
  closing-Done (ok a) c back h = closed c.world h
  closing-Done (err e) c back h = closed c.world h
  closing-Done hang c back h = absurd (back refl)

  module _ (s : Setup) (script : ScriptKeeps P s.script) (g : IgnoresVersions P) where
    migrated :
        (w : World)
        → P w.db.tables
        → Opened P (close_on_error (on_db (migrate s.script s.applied_at s.atoi s.entries) w))
    migrated w h =
        let m = migrate s.script s.applied_at s.atoi s.entries in
        close_on_error-Opened (m w.db).0 (on_db m w).1
          ((migrate-Returns P s.script s.applied_at script g s.atoi s.entries).at w.db)
          ((migrate-kept P s.script s.applied_at script g s.atoi s.entries).at w.db h)

    then_migrated :
        (r : Result (Unit {0})) (w : World)
        → Opened P (r, w)
        → Opened P (
            continue r
              (λ u w. close_on_error (on_db (migrate s.script s.applied_at s.atoi s.entries) w))
              w)
    then_migrated (ok u) w h = migrated w h
    then_migrated (err e) w h = h
    then_migrated hang w h = h

    open_instance_db-Opened :
        (name : String) (w : World) → LeftClosed P w → Opened P (open_instance_db s name w)
    unfolding open_instance_db
    open_instance_db-Opened name w h =
        go (resolve_paths s.places name) (resolve_paths_returns s.places name)
      where
        go :
            (r : Result Paths)
            → r ≢ hang
            → Opened P (
                continue r
                  (λ paths. open_database >>= λ u w.
                    close_on_error (on_db (migrate s.script s.applied_at s.atoi s.entries) w))
                  w)
        go (ok paths) back =
            then_migrated (open_database w).0 (open_database w).1 (open_database-Opened w h)
        go (err e) back = h
        go hang back = absurd (back refl)

    printed_closed :
        {A : Type 0} (print : A → Action Terminal Unit)
        → ((a : A) → Ends (print a))
        → (r : Result A) (c : Session) → r ≢ hang
        → P c.world.db.tables
        → Done P (closing (continue r (λ a. on_terminal (print a)) c))
    printed_closed print ends (ok a) c back h =
        closing-Done (print a c.terminal).0 (on_terminal (print a) c).1 (ends a c.terminal) h
    printed_closed print ends (err e) c back h = closing-Done (err e) c (λ p. cc) h
    printed_closed print ends hang c back h = absurd (back refl)

    then_closed :
        {A : Type 0} (work : Action Db A) (print : A → Action Terminal Unit)
        → Returns work
        → Keeps P work
        → ((a : A) → Ends (print a))
        → (r : Result (Unit {0})) (c : Session) → Opened P (r, c.world)
        → Done P (continue r (λ u c. closing (work_and_print work print c)) c)
    then_closed work print back kept ends (ok u) c h =
        let db = c.world.db in
        printed_closed print ends (work db).0 (on_world (on_db work) c).1 (back.at db)
          (kept.at db h)
    then_closed work print back kept ends (err e) c h = h
    then_closed work print back kept ends hang c h = absurd h

    -- A command whose work with the database comes to an end and keeps a property of the tables, and which
    -- prints what it has found, comes to an end, keeps the property, and leaves the database closed, whatever
    -- call or statement fails: opening, migrating, the work itself or the printing. The scripts of the
    -- migrations have to keep the property, which does not speak of the versions.
    pub with_instance_db-LeftClosed :
        {A : Type 0} (name : String) (work : Action Db A) (print : A → Action Terminal Unit)
        → Returns work
        → Keeps P work
        → ((a : A) → Ends (print a))
        → (c : Session) → LeftClosed P c.world
        → Done P (with_instance_db s name (work_and_print work print) c)
    unfolding with_instance_db
    with_instance_db-LeftClosed name work print back kept ends c h =
        let out = on_world (open_instance_db s name) c in
        then_closed work print back kept ends out.0 out.1 (open_instance_db-Opened name c.world h)
