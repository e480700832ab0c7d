-- ===== src/App/InstanceDb/Work.antt =====
-- A command that has succeeded has done its work with the database, and left what the work left.
use jobsd.Common.{String, ◌≡◌, refl}
use jobsd.Result.{Result, ok, err, hang}
use jobsd.Action.{Action, continue}
use jobsd.Sqlite.Engine.{Db}
use jobsd.Output.{Terminal}
use jobsd.Daemon.Server.{on_db}
use jobsd.App.InstanceDb.{
  Setup, Session, on_world, on_terminal, work_and_print, open_instance_db, closing,
  with_instance_db,
}
use jobsd.App.InstanceDb.Closed.{close_database_closed}

closing_same : (r : Result (Unit {0})) (c : Session) → (closing (r, c)).1.world.db ≡ c.world.db
closing_same (ok u) c = (close_database_closed c.world).1
closing_same (err e) c = (close_database_closed c.world).1
closing_same hang c = refl

-- the work of a command from some state of the database on
abbrev pub WorkDone : {A : Type 0} → Action Db A → Db → Type 0
WorkDone {A} work after =
    (before : Db) × (a : A) × ((work before).0 ≡ ok a) × (after ≡ (work before).1)

module _ {A : Type 0} (work : Action Db A) (print : A → Action Terminal Unit) where
  printed :
      (r : Result A) (c : Session)
      → (closing (continue r (λ a. on_terminal (print a)) c)).0 ≡ ok tt
      → (a : A) × (r ≡ ok a)
        × ((closing (continue r (λ a. on_terminal (print a)) c)).1.world.db ≡ c.world.db)
  printed (ok a) c e = (a, refl, closing_same (print a c.terminal).0 (on_terminal (print a) c).1)
  printed (err x) c e = cc
  printed hang c e = cc

  worked :
      (r : Result (Unit {0})) (c : Session)
      → (continue r (λ u c. closing (work_and_print work print c)) c).0 ≡ ok tt
      → WorkDone work (continue r (λ u c. closing (work_and_print work print c)) c).1.world.db
  worked (ok u) c e =
      let (a, done, same) = printed (work c.world.db).0 (on_world (on_db work) c).1 e in
      (c.world.db, a, done, same)
  worked (err x) c e = cc
  worked hang c e = cc

  pub with_instance_db_ok :
      (s : Setup) (name : String) (c : Session)
      → (with_instance_db s name (work_and_print work print) c).0 ≡ ok tt
      → WorkDone work (with_instance_db s name (work_and_print work print) c).1.world.db
  unfolding with_instance_db
  with_instance_db_ok s name c e =
      let out = on_world (open_instance_db s name) c in worked out.0 out.1 e
