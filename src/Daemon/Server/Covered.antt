-- ===== src/Daemon/Server/Covered.antt =====
-- Every call that Serve makes once it has the lock keeps what it holds covered by a deferred function.
use jobsd.Common.{Bool, true, false, not, ◌||◌, ◌&&◌, Option, ℤ, ◌≡◌, arith}
use jobsd.Result.{Result, ok, err, hang}
use jobsd.Action.{Action, continue, ◌>>=◌, ◌>>◌}
use jobsd.Env.{Env, Codec}
use jobsd.Config.{Paths}
use jobsd.Sqlite.Migrate.{migrate}
use jobsd.Daemon.State.{StateJson, write_state, remove_state}
use jobsd.Daemon.Server.{
  World, ServeInput, Wake, signalled, requested, control_ended, loop_ended, on_files, on_db, os,
  set, give_up, deferred, release, close_database, listen_control_listener,
}
use jobsd.Daemon.Server.Serve.{
  await, receive_control, receive_loop, serve_until_stopped, upsert_instance_metadata,
  scheduler_state, serve_listening, serve_open,
}

-- a lock or a database that is held is one that a deferred function will give back
abbrev pub covered : World → Bool
covered w = (w.release_lock || not w.lock_held) && (w.close_db || not w.db_open)

abbrev pub Stays : {A : Type 0} → (World → Bool) → Action World A → Type 0
Stays P m = (w : World) → P w ≡ true → P (m w).1 ≡ true

Stays-bind :
    {A B : Type 0} (P : World → Bool) (m : Action World A) (f : A → Action World B)
    → Stays P m
    → ((a : A) → Stays P (f a))
    → Stays P (m >>= f)
Stays-bind {A} {B} P m f first later w h = go (m w).0 (m w).1 (first w h)
  where
    go : (r : Result A) (v : World) → P v ≡ true → P (continue r f v).1 ≡ true
    go (ok a) v h = later a v h
    go (err e) v h = h
    go hang v h = h

Stays-deferred :
    (P : World → Bool) (flag : World → Bool) (cleanup body : Action World Unit)
    → Stays P cleanup
    → Stays P body
    → Stays P (deferred flag cleanup body)
Stays-deferred P flag cleanup body last first w h =
    let mid = first w h in let end = last (body w).1 mid in ground arith

Stays-await : (i : ServeInput) (wake : Wake) → Stays covered (await i wake)
unfolding await
Stays-await i signalled w h = h
Stays-await i requested w h = h
Stays-await i (control_ended done) w h = ground arith
Stays-await i (loop_ended done) w h = ground arith

abbrev give_back : Action World Unit
give_back =
    release
    >> (set (λ w. record w { release_lock = false })
        >> (close_database >> set (λ w. record w { close_db = false })))

Stays-give_back : Stays covered give_back
unfolding release
Stays-give_back w h = ground arith

Stays-then : (m n : Action World Unit) → Stays covered m → Stays covered n → Stays covered (m >> n)
Stays-then m n first later = Stays-bind covered m (λ u. n) first (λ u. later)

Stays-serve_until_stopped : (i : ServeInput) → Stays covered (serve_until_stopped i)
unfolding serve_until_stopped
Stays-serve_until_stopped i w h =
    let remove = on_files (remove_state i.rounds i.retries) in
    let stop = give_up (λ w. record w { listening = false }) in
    let removed = set (λ w. record w { remove_file = false }) >> give_back in
    let await_loop = receive_loop i.loop_end >> (remove >> removed) in
    let await_control = receive_control i.control_end >> await_loop in
    Stays-then (await i i.wake) (stop >> await_control) (Stays-await i i.wake)
      (Stays-then stop await_control (λ w h. ground arith)
        (Stays-then (receive_control i.control_end) await_loop (λ w h. ground arith)
          (Stays-then (receive_loop i.loop_end) (remove >> removed) (λ w h. ground arith)
            (Stays-then remove removed (λ w h. h)
              (λ w h. Stays-give_back (record w { remove_file = false }) h)))))
      (record w { db = i.while_serving w.db }) h

Stays-listen :
    (bound : ℤ → Option ℤ) (port : ℤ) → Stays covered (listen_control_listener bound port)
unfolding listen_control_listener
Stays-listen bound port w h = ground arith

module _ (env : Env) (codec : Codec) (json : StateJson) (i : ServeInput) where
  Stays-serve_listening :
      (paths : Paths) (port : ℤ) → Stays covered (serve_listening env codec json i paths port)
  unfolding serve_listening
  Stays-serve_listening paths port =
      let upsert = on_db (upsert_instance_metadata env codec json i port) in
      let write =
        on_files (write_state codec json (scheduler_state env codec json i paths port) i.part) in
      let remove = on_files (remove_state i.rounds i.retries) in
      let serving : Action World Unit =
        set (λ w. record w { close_listener = false; control_received = false })
        >> (set (λ w. record w { loop_running = true; loop_received = false })
            >> serve_until_stopped i) in
      let guarded = deferred (λ w. w.remove_file) remove serving in
      let rest = set (λ w. record w { remove_file = true }) >> guarded in
      Stays-then upsert (write >> rest) (λ w h. h)
        (Stays-then write rest (λ w h. h)
          (λ w h.
            Stays-deferred covered (λ w. w.remove_file) remove serving (λ w h. h)
              (λ w h.
                Stays-serve_until_stopped i
                  (record w {
                    close_listener = false;
                    control_received = false;
                    loop_running = true;
                    loop_received = false;
                  })
                  h)
              (record w { remove_file = true }) h))

  pub Stays-serve_open : (paths : Paths) → Stays covered (serve_open env codec json i paths)
  unfolding serve_open
  Stays-serve_open paths =
      let close = give_up (λ w. record w { listening = false }) in
      let draw = os (λ w. w) in
      let rest = λ (port : ℤ).
        set (λ w. record w { close_listener = true })
        >> deferred (λ w. w.close_listener) close (serve_listening env codec json i paths port) in
      let listening = listen_control_listener i.bound i.port >>= rest in
      Stays-then (on_db (migrate i.script i.applied_at i.atoi i.entries)) (draw >> listening)
        (λ w h. h)
        (Stays-then draw listening (λ w h. ground arith)
          (Stays-bind covered (listen_control_listener i.bound i.port) rest
            (Stays-listen i.bound i.port)
            (λ port w h.
              Stays-deferred covered (λ w. w.close_listener) close
                (serve_listening env codec json i paths port) (λ w h. ground arith)
                (Stays-serve_listening paths port) (record w { close_listener = true }) h)))
