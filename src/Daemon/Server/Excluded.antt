-- ===== src/Daemon/Server/Excluded.antt =====
-- The lock of an instance: what a second Serve does while another process holds it.
use jobsd.Common.{Bool, true, false, ◌≡◌, ◌≢◌, refl, arith}
use jobsd.Action.{Action, continue, ◌>>=◌, ◌>>◌}
use jobsd.Result.{Result, ok, err, hang}
use jobsd.Env.{Env, Codec}
use jobsd.Config.{Paths, resolve_paths, validate_instance_name, resolve_data_base_dir}
use jobsd.Daemon.State.{StateJson}
use jobsd.Daemon.Server.{World, ServeInput, acquire, set, deferred, release}
use jobsd.Daemon.Server.Serve.{serve, serve_locked, checked_paths}

-- a call that has returned an error
abbrev pub is_error {ℓ} : {A : Type ℓ} → Result A → Bool
is_error (ok a) = false
is_error (err e) = true
is_error hang = false

checked_paths_returns : (i : ServeInput) → checked_paths i ≢ hang
unfolding checked_paths resolve_paths validate_instance_name resolve_data_base_dir
checked_paths_returns i e = ground arith

-- While another process holds the lock of the instance, Serve returns an error, whatever it is called
-- with and whichever of its calls fail, and leaves the database, the state file, the listener and the
-- loop as they are.
pub serve-held_elsewhere :
    (env : Env) (codec : Codec) (json : StateJson) (i : ServeInput) (w : World)
    → w.held_elsewhere ≡ true
    → (is_error (serve env codec json i w).0 ≡ true)
      × ((serve env codec json i w).1.db ≡ w.db)
      × ((serve env codec json i w).1.files.state_file ≡ w.files.state_file)
      × ((serve env codec json i w).1.lock_held ≡ w.lock_held)
      × ((serve env codec json i w).1.listening ≡ w.listening)
      × ((serve env codec json i w).1.loop_running ≡ w.loop_running)
unfolding serve acquire
serve-held_elsewhere env codec json i w held = checked (checked_paths i) (checked_paths_returns i)
  where
    rest : Paths → Unit {0} → Action World Unit
    rest paths u =
        set (λ w. record w { release_lock = true })
        >> deferred (λ w. w.release_lock) release (serve_locked env codec json i paths)

    Refused : Result (Unit {0}) × World → Type 0
    Refused out =
        (is_error out.0 ≡ true)
        × (out.1.db ≡ w.db)
        × (out.1.files.state_file ≡ w.files.state_file)
        × (out.1.lock_held ≡ w.lock_held)
        × (out.1.listening ≡ w.listening)
        × (out.1.loop_running ≡ w.loop_running)

    acquired :
        (paths : Paths) (r : Result (Unit {0})) (v : World)
        → acquire w ≡ (r, v)
        → Refused (continue r (rest paths) v)
    acquired paths (ok u) v link = ground arith
    acquired paths (err e) v link =
        (refl, ground arith, ground arith, ground arith, ground arith, ground arith)
    acquired paths hang v link = ground arith

    checked :
        (r : Result Paths) → r ≢ hang → Refused (continue r (λ paths. acquire >>= rest paths) w)
    checked (ok paths) back = acquired paths (acquire w).0 (acquire w).1 refl
    checked (err e) back = (refl, refl, refl, refl, refl, refl)
    checked hang back = absurd (back refl)
