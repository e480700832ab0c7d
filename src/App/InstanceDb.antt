-- ===== src/App/InstanceDb.antt =====
-- internal/app/instance_db.go: the database of an instance, opened and migrated, and closed again by the
-- deferred function of the command that works on it.
pub mod Closed
pub mod Work
use jobsd.Common.{List, Option, String, ℤ}
use jobsd.Common.Text.{Runes}
use jobsd.Result.{Result, ok, err, hang}
use jobsd.Action.{Action, lift, ◌>>=◌, ◌>>◌}
use jobsd.Domain.{Time}
use jobsd.Sqlite.{Tables}
use jobsd.Sqlite.Engine.{Db}
use jobsd.Sqlite.Migrate.{Entry, migrate}
use jobsd.Output.{Terminal}
use jobsd.Config.{Places, resolve_paths}
use jobsd.Daemon.Server.{World, on_db, open_database, close_database, close_on_error}

-- where the files of instances are, and what Migrate works with
pub record Setup : Type 0 where
  pub places : Places
  pub script : String → Tables → Result (Unit {0} × Tables)
  pub applied_at : ℤ → Time
  pub atoi : Runes → Option ℤ
  pub entries : List Entry

-- openInstanceDB
unfoldable pub open_instance_db : Setup → String → Action World Unit
unfolding open_database
open_instance_db s name = do
  paths ← lift (resolve_paths s.places name)
  open_database
  λ w. close_on_error (on_db (migrate s.script s.applied_at s.atoi s.entries) w)

-- a process that runs a command, and its standard output
pub record Session : Type 0 where
  pub world : World
  pub terminal : Terminal

abbrev pub on_world : {A : Type 0} → Action World A → Action Session A
on_world m c = let out = m c.world in (out.0, record c { world = out.1 })

abbrev pub on_terminal : {A : Type 0} → Action Terminal A → Action Session A
on_terminal m c = let out = m c.terminal in (out.0, record c { terminal = out.1 })

-- the work with the database, and the printing of what it returns
abbrev pub work_and_print :
    {A : Type 0} → Action Db A → (A → Action Terminal Unit) → Action Session Unit
work_and_print work print = on_world (on_db work) >>= λ a. on_terminal (print a)

-- `defer cleanup()`, which a command that never ends does not come to
abbrev pub closing : Result (Unit {0}) × Session → Result (Unit {0}) × Session
closing (ok a, c) = (ok a, record c { world = (close_database c.world).1 })
closing (err e, c) = (err e, record c { world = (close_database c.world).1 })
closing (hang, c) = (hang, c)

-- what every command does with the database
unfoldable pub with_instance_db : Setup → String → Action Session Unit → Action Session Unit
unfolding open_instance_db
with_instance_db s name body = do on_world (open_instance_db s name); λ c. closing (body c)
