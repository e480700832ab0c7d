-- ===== src/Daemon/Server/Serve.antt =====
-- internal/daemon/server.go: Serve and upsertInstanceMetadata, from the checks of the options to the
-- deferred functions.
use text.Mathlib.Text.{◌==◌ as str_eq}
use jobsd.Common.{Bool, true, false, not, ◌||◌, none, String, ℤ, pos, if◌then◌else◌}
use jobsd.Common.Int.{is_negative, int_below}
use jobsd.Result.{Error, metadata_not_found, invalid, Result, ok, err, hang}
use jobsd.Result
use jobsd.Action.{Action, pure, lift, ◌>>=◌, ◌>>◌, refuse_if}
use jobsd.Domain.{SchedulerState, InstanceMetadata}
use jobsd.Env.{Env, Codec}
use jobsd.Sqlite.Engine.{Db}
use jobsd.Sqlite.Metadata.{get_metadata, upsert_metadata}
use jobsd.Sqlite.Migrate.{migrate}
use jobsd.Config.{Paths, resolve_paths}
use jobsd.Daemon.State.{StateJson, write_state, remove_state}
use jobsd.Daemon.Server.{
  World, ServeInput, Wake, signalled, requested, control_ended, loop_ended, Ended, cleanly,
  canceled, failed, on_files, on_db, os, set, give_up, deferred, acquire, release, open_database,
  close_database, listen_control_listener,
}

abbrev pub resolved_paths : ServeInput → Result Paths
resolved_paths i =
    if str_eq i.paths.instance_name "" then resolve_paths i.places i.instance_name else ok i.paths

-- the checks of Serve before it takes the lock
unfoldable pub checked_paths : ServeInput → Result Paths
checked_paths i =
    Result.◌>>=◌ (Result.refuse_if (str_eq i.instance_name "") (invalid "instance is required"))
      λ u.
        Result.◌>>=◌
          (Result.refuse_if (is_negative i.port || int_below (pos 65535) i.port)
            (invalid "port must be between 0 and 65535"))
          λ u.
            Result.◌>>=◌ (Result.refuse_if (str_eq i.version "") (invalid "version is required"))
              λ u. Result.◌>>=◌ (resolved_paths i) λ paths.
                Result.◌>>=◌
                  (Result.refuse_if (not (str_eq paths.instance_name i.instance_name))
                    (invalid "paths instance does not match"))
                  λ u. ok paths

-- what <-controlErrCh returns; the value of a channel is there once
abbrev pub control_error : Ended → Result (Unit {0})
control_error cleanly = ok tt
control_error canceled = err (invalid "context canceled")
control_error (failed e) = err e

abbrev pub loop_error : Ended → Result (Unit {0})
loop_error cleanly = ok tt
loop_error canceled = ok tt
loop_error (failed e) = err e

abbrev pub receive_control : Ended → Action World Unit
receive_control end w =
    if w.control_received
    then (hang, w)
    else (control_error end, record w { control_received = true })

abbrev pub receive_loop : Ended → Action World Unit
receive_loop end w =
    if w.loop_received
    then (hang, w)
    else (loop_error end, record w { loop_received = true; loop_running = false })

-- an end that Serve has not asked for
abbrev pub ended_early : String → Bool → Ended → Action World Unit
ended_early message done cleanly = refuse_if (not done) (invalid message)
ended_early message done canceled = lift (err (invalid "context canceled"))
ended_early message done (failed e) = lift (err e)

-- the select of Serve
unfoldable pub await : ServeInput → Wake → Action World Unit
await i signalled = pure tt
await i requested = pure tt
await i (control_ended done) =
    set (λ w. record w { control_received = true; listening = false })
    >> ended_early "control api stopped unexpectedly" done i.control_end
await i (loop_ended done) =
    set (λ w. record w { loop_received = true; loop_running = false })
    >> ended_early "scheduler loop stopped unexpectedly" done i.loop_end

-- Serve from the start of the loop on
unfoldable pub serve_until_stopped : ServeInput → Action World Unit
unfolding await release
serve_until_stopped i = do
  set (λ w. record w { db = i.while_serving w.db })
  await i i.wake
  give_up (λ w. record w { listening = false })
  receive_control i.control_end
  receive_loop i.loop_end
  on_files (remove_state i.rounds i.retries)
  set (λ w. record w { remove_file = false })
  release
  set (λ w. record w { release_lock = false })
  close_database
  set (λ w. record w { close_db = false })

module _ (env : Env) (codec : Codec) (json : StateJson) (i : ServeInput) where
  abbrev new_metadata : ℤ → InstanceMetadata
  new_metadata port = record {
    instance_name = i.instance_name;
    created_at = i.now;
    scheduler_port = port;
    on_finish = none;
  }

  abbrev upsert_found : ℤ → Result InstanceMetadata → Action Db Unit
  upsert_found port (ok meta) =
      refuse_if (not (str_eq meta.instance_name i.instance_name))
        (invalid "instance metadata mismatch")
      >> upsert_metadata env codec i.keys i.now (record meta { scheduler_port = port })
  upsert_found port (err metadata_not_found) =
      upsert_metadata env codec i.keys i.now (new_metadata port)
  upsert_found port (err e) = lift (err e)
  upsert_found port hang = lift hang

  unfoldable pub upsert_instance_metadata : ℤ → Action Db Unit
  upsert_instance_metadata port db =
      let found = get_metadata env codec db in upsert_found port found.0 found.1

  abbrev pub scheduler_state : Paths → ℤ → SchedulerState
  scheduler_state paths port = record {
    instance_name = i.instance_name;
    pid = i.pid;
    port = port;
    token = i.token;
    db_path = paths.database_path;
    started_at = i.started_at;
    version = i.version;
  }

  -- Serve once it has the listener
  unfoldable pub serve_listening : Paths → ℤ → Action World Unit
  unfolding upsert_instance_metadata serve_until_stopped
  serve_listening paths port = do
    on_db (upsert_instance_metadata port)
    on_files (write_state codec json (scheduler_state paths port) i.part)
    set (λ w. record w { remove_file = true })
    deferred (λ w. w.remove_file) (on_files (remove_state i.rounds i.retries))
        do
          set (λ w. record w { close_listener = false; control_received = false })
          set (λ w. record w { loop_running = true; loop_received = false })
          serve_until_stopped i

  -- Serve once it has the database; rand.Read is the call before the listener
  unfoldable pub serve_open : Paths → Action World Unit
  unfolding listen_control_listener serve_listening
  serve_open paths = do
    on_db (migrate i.script i.applied_at i.atoi i.entries)
    os (λ w. w)
    port ← listen_control_listener i.bound i.port
    set (λ w. record w { close_listener = true })
    deferred (λ w. w.close_listener) (give_up (λ w. record w { listening = false }))
        (serve_listening paths port)

  -- Serve once it has the lock
  unfoldable pub serve_locked : Paths → Action World Unit
  unfolding open_database serve_open
  serve_locked paths = do
    open_database
    set (λ w. record w { close_db = true })
    deferred (λ w. w.close_db) close_database (serve_open paths)

  -- Serve
  unfoldable pub serve : Action World Unit
  unfolding checked_paths acquire serve_locked
  serve = do
    paths ← lift (checked_paths i)
    acquire
    set (λ w. record w { release_lock = true })
    deferred (λ w. w.release_lock) release (serve_locked paths)
