-- ===== src/Daemon/Server/Release.antt =====
-- What Serve gives back, however it returns: the lock and the database.
use jobsd.Common.{Bool, true, false, not, ◌||◌, ◌&&◌, ◌≡◌, refl, arith, sym, ◌∙◌}
use jobsd.Result.{Result, ok, err, hang}
use jobsd.Action.{Action, continue, ◌>>=◌, ◌>>◌}
use jobsd.Env.{Env, Codec}
use jobsd.Config.{Paths}
use jobsd.Daemon.State.{StateJson, called}
use jobsd.Daemon.Server.{
  World, ServeInput, on_db, set, returned, deferred, acquire, release, open_database,
  close_database, close_on_error, pragma,
}
use jobsd.Daemon.Server.Serve.{serve_open, serve_locked, serve, checked_paths}
use jobsd.Daemon.Server.Covered.{Stays-serve_open}

-- with the lock held, and a deferred function that releases it
abbrev locked : World → Bool
locked w = w.release_lock || not w.lock_held

returned-deferred :
    (flag : World → Bool) (cleanup body : Action World Unit) (w : World)
    → returned (deferred flag cleanup body w).0 ≡ returned (body w).0
returned-deferred flag cleanup body w = ground arith

deferred-release :
    (body : Action World Unit) (w : World)
    → returned (body w).0 ≡ true
    → locked (body w).1 ≡ true
    → (body w).1.db_open ≡ false
    → ((deferred (λ w. w.release_lock) release body w).1.lock_held ≡ false)
      × ((deferred (λ w. w.release_lock) release body w).1.db_open ≡ false)
unfolding release
deferred-release body w back h shut = (ground arith, ground arith)

-- how sqlite.Open and lock.Acquire leave the process: with what they open if they succeed
abbrev after_open : Result (Unit {0}) × World → Bool
after_open (ok u, w) = locked w
after_open (err e, w) = locked w && not w.db_open
after_open (hang, w) = true

close_on_error-after_open :
    (r : Result (Unit {0})) (v : World)
    → locked v ≡ true
    → after_open (close_on_error (r, v)) ≡ true
close_on_error-after_open (ok u) v h = h
close_on_error-after_open (err e) v h = ground arith
close_on_error-after_open hang v h = refl

open_database-after_open :
    (w : World) → locked w ≡ true → w.db_open ≡ false → after_open (open_database w) ≡ true
unfolding open_database
open_database-after_open w h shut =
    let opened = record w { files = called (called w.files); db_open = true } in
    let closed =
      close_on_error-after_open (on_db (pragma >> pragma >> pragma >> pragma) opened).0
        (on_db (pragma >> pragma >> pragma >> pragma) opened).1 h in
    ground arith

abbrev after_acquire : Result (Unit {0}) × World → Bool
after_acquire (ok u, w) = not w.db_open
after_acquire (err e, w) = not w.lock_held && not w.db_open
after_acquire (hang, w) = true

acquire-after_acquire :
    (w : World) → w.lock_held ≡ false → w.db_open ≡ false → after_acquire (acquire w) ≡ true
unfolding acquire
acquire-after_acquire w free shut = ground arith

module _ (env : Env) (codec : Codec) (json : StateJson) (i : ServeInput) where
  serve_locked-locked :
      (paths : Paths) (w : World)
      → locked w ≡ true
      → w.db_open ≡ false
      → returned (serve_locked env codec json i paths w).0 ≡ true
      → (locked (serve_locked env codec json i paths w).1 ≡ true)
        × ((serve_locked env codec json i paths w).1.db_open ≡ false)
  unfolding serve_locked
  serve_locked-locked paths w h shut back =
      go (open_database w).0 (open_database w).1 (open_database-after_open w h shut) back
    where
      rest : Unit {0} → Action World Unit
      rest u =
          set (λ w. record w { close_db = true })
          >> deferred (λ w. w.close_db) close_database (serve_open env codec json i paths)

      go :
          (r : Result (Unit {0})) (v : World)
          → after_open (r, v) ≡ true
          → returned (continue r rest v).0 ≡ true
          → (locked (continue r rest v).1 ≡ true) × ((continue r rest v).1.db_open ≡ false)
      go (ok u) v h back =
          let kept = Stays-serve_open env codec json i paths (record v { close_db = true }) in
          (ground arith, ground arith)
      go (err e) v h back = (ground arith, ground arith)
      go hang v h back = ground arith

-- Serve, called by a process that holds neither the lock nor the database, holds neither of them when
-- it returns, whether it returns an error or not, whichever of its calls fail and whatever makes it stop.
pub serve-returned :
    (env : Env) (codec : Codec) (json : StateJson) (i : ServeInput) (w : World)
    → w.lock_held ≡ false
    → w.db_open ≡ false
    → returned (serve env codec json i w).0 ≡ true
    → ((serve env codec json i w).1.lock_held ≡ false)
      × ((serve env codec json i w).1.db_open ≡ false)
unfolding serve
serve-returned env codec json i w free shut back = checked (checked_paths i) back
  where
    rest : Paths → Unit {0} → Action World Unit
    rest paths u =
        set (λ w. record w { release_lock = true })
        >> deferred (λ w. w.release_lock) release (serve_locked env codec json i paths)

    acquired :
        (paths : Paths) (r : Result (Unit {0})) (v : World)
        → after_acquire (r, v) ≡ true
        → returned (continue r (rest paths) v).0 ≡ true
        → ((continue r (rest paths) v).1.lock_held ≡ false)
          × ((continue r (rest paths) v).1.db_open ≡ false)
    acquired paths (ok u) v h back =
        let body = serve_locked env codec json i paths in
        let v' = record v { release_lock = true } in
        let back' : returned (body v').0 ≡ true =
          sym (returned-deferred (λ w. w.release_lock) release body v') ∙ back in
        let kept = serve_locked-locked env codec json i paths v' refl (ground arith) back' in
        deferred-release body v' back' kept.0 kept.1
    acquired paths (err e) v h back = (ground arith, ground arith)
    acquired paths hang v h back = ground arith

    checked :
        (r : Result Paths)
        → returned (continue r (λ paths. acquire >>= rest paths) w).0 ≡ true
        → ((continue r (λ paths. acquire >>= rest paths) w).1.lock_held ≡ false)
          × ((continue r (λ paths. acquire >>= rest paths) w).1.db_open ≡ false)
    checked (ok paths) back =
        acquired paths (acquire w).0 (acquire w).1 (acquire-after_acquire w free shut) back
    checked (err e) back = (free, shut)
    checked hang back = (free, shut)
