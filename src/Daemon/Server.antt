-- ===== src/Daemon/Server.antt =====
-- internal/daemon/server.go, with internal/lock and sqlite.Open: how a scheduler takes its lock, its
-- database, its listener and its state file, and gives them back. A call of the operating system fails
-- as the counter of `Files` says. What the goroutines of the control API and the loop end with, and
-- which channel the select picks, are inputs.
pub mod Serve
pub mod Covered
pub mod Release
pub mod Excluded
use text.Mathlib.Text.{◌==◌ as str_eq}
use jobsd.Common.{
  ℕ, zero, suc, ltb, leb, Bool, true, false, not, ◌&&◌, ◌||◌, Option, none, some, List, String, ℤ,
  pos, if◌then◌else◌,
}
use jobsd.Common.Int.{is_negative, int_below}
use jobsd.Common.Text.{Runes}
use jobsd.Result.{Error, system, metadata_not_found, invalid, Result, ok, err, hang}
use jobsd.Result
use jobsd.Action.{Action, pure, lift, ◌>>=◌, ◌>>◌, refuse_if}
use jobsd.Domain.{Time, SchedulerState, InstanceMetadata}
use jobsd.Env.{Env, Codec}
use jobsd.Sqlite.{Tables, MetadataKey}
use jobsd.Sqlite.Engine.{Db, exec}
use jobsd.Sqlite.Metadata.{get_metadata, upsert_metadata}
use jobsd.Sqlite.Migrate.{Entry, migrate}
use jobsd.Config.{Paths, Places, resolve_paths}
use jobsd.Daemon.State.{StateJson, Files, called, write_state, remove_state}

-- What the process holds, what its files and its database are, and the variables of Serve that its
-- deferred functions read. A channel is `*_received` once its one value has been taken.
pub record World : Type 0 where
  pub files : Files
  pub db : Db
  pub held_elsewhere : Bool
  pub lock_held : Bool
  pub db_open : Bool
  pub listening : Bool
  pub loop_running : Bool
  pub control_received : Bool
  pub loop_received : Bool
  pub release_lock : Bool
  pub close_db : Bool
  pub close_listener : Bool
  pub remove_file : Bool

abbrev pub on_files : {A : Type 0} → Action Files A → Action World A
on_files f w = let out = f w.files in (out.0, record w { files = out.1 })

abbrev pub on_db : {A : Type 0} → Action Db A → Action World A
on_db f w = let out = f w.db in (out.0, record w { db = out.1 })

-- a call of the operating system, and what it does if it succeeds
abbrev pub os : (World → World) → Action World Unit
os change w =
    let next = record w { files = called w.files } in
    if w.files.fails w.files.calls then (err system, next) else (ok tt, change next)

abbrev pub set : (World → World) → Action World Unit
set change w = (ok tt, change w)

-- a call that gives a thing up, whether or not it reports an error
abbrev pub give_up : (World → World) → Action World Unit
give_up change w =
    let next = change (record w { files = called w.files }) in
    if w.files.fails w.files.calls then (err system, next) else (ok tt, next)

abbrev pub returned {ℓ} : {A : Type ℓ} → Result A → Bool
returned (ok a) = true
returned (err e) = true
returned hang = false

-- `defer func() { if flag { … } }()`, whose error is dropped
abbrev pub deferred : (World → Bool) → Action World Unit → Action World Unit → Action World Unit
deferred flag cleanup body w =
    let out = body w in if returned out.0 && flag out.1 then (out.0, (cleanup out.1).1) else out

-- openLockedFile on Unix: OpenFile and Flock
abbrev pub open_locked_file : Action World Unit
open_locked_file = do
  os (λ w. w)
  λ w.
      if w.held_elsewhere
      then (err (invalid "instance is already running"), record w { files = called w.files })
      else os (λ w. record w { lock_held = true }) w

-- lock.Acquire
unfoldable pub acquire : Action World Unit
acquire = do os (λ w. w); open_locked_file

-- FileLock.Release, which forgets the file even if Close fails
unfoldable pub release : Action World Unit
release w = if w.lock_held then give_up (λ w. record w { lock_held = false }) w else (ok tt, w)

-- sql.DB.Close
abbrev pub close_database : Action World Unit
close_database = give_up (λ w. record w { db_open = false })

abbrev pub pragma : Action Db Unit
pragma = exec (λ t. ok (tt, t))

-- applyPragmas
unfoldable pub apply_pragmas : Action World Unit
apply_pragmas = on_db (pragma >> pragma >> pragma >> pragma)

abbrev pub close_on_error : Result (Unit {0}) × World → Result (Unit {0}) × World
close_on_error (ok u, w) = (ok u, w)
close_on_error (err e, w) = (err e, (close_database w).1)
close_on_error (hang, w) = (hang, w)

-- sqlite.Open: MkdirAll, sql.Open, and the pragmas
unfoldable pub open_database : Action World Unit
unfolding apply_pragmas
open_database = do
  os (λ w. w)
  os (λ w. record w { db_open = true })
  λ w. close_on_error (apply_pragmas w)

-- listenControlListener; `bound` is the port of the TCP address that the listener has
abbrev pub found_port : Option ℤ → Action World ℤ
found_port none = close >>= λ u. lift (err (invalid "unexpected listener address"))
  where
    close : Action World Unit
    close w = (ok tt, (give_up (λ w. record w { listening = false }) w).1)
found_port (some port) = pure port

unfoldable pub listen_control_listener : (ℤ → Option ℤ) → ℤ → Action World ℤ
listen_control_listener bound port = do
  os (λ w. record w { listening = true })
  found_port (bound port)

-- the end of a goroutine: nothing, context.Canceled, or another error
pub data Ended : Type 0 where
  cleanly canceled : Ended
  failed : Error → Ended

-- what the select of Serve picks; for an ended goroutine, whether signalCtx or ctx is done then
pub data Wake : Type 0 where
  signalled requested : Wake
  control_ended loop_ended : Bool → Wake

-- What Serve is called with, and what the outside answers.
pub record ServeInput : Type 0 where
  pub instance_name : String
  pub port : ℤ
  pub version : String
  -- opts.Paths, whose instance is empty if it is not set
  pub paths : Paths
  pub places : Places
  pub pid : ℤ
  pub token : String
  pub started_at : Time
  pub now : Time
  pub keys : List MetadataKey
  pub bound : ℤ → Option ℤ
  pub part : String
  pub rounds : ℕ
  pub retries : Bool
  pub script : String → Tables → Result (Unit {0} × Tables)
  pub applied_at : ℤ → Time
  pub atoi : Runes → Option ℤ
  pub entries : List Entry
  pub wake : Wake
  pub control_end : Ended
  pub loop_end : Ended
  -- what the loop and the hooks do to the database until then
  pub while_serving : Db → Db
