-- ===== src/Daemon/Dispatcher/Attempts.antt =====
-- How often a hook is tried, and what the tries leave alone.
use jobsd.Common.{
  ℕ, zero, suc, ◌+◌, ◌-◌, ◌⊎◌, ◌≤◌, ◌<◌, ◌^◌, Bool, true, false, Option, none, some, List, [], ◌∷◌,
  String, ℤ, if◌then◌else◌, length, ◌≡◌, refl, arith, Bool-cases, inl, inr,
}
use jobsd.Common.Int.{pos_part}
use jobsd.Result.{ok}
use jobsd.Action.{Action, pure, ◌>>=◌, logged}
use jobsd.Domain.{RunHookDelivery, Job, Run, OnFinishConfig, InstanceMetadata}
use jobsd.Env.{Env}
use jobsd.Sqlite.{Tables, RunRow}
use jobsd.Sqlite.Engine.{Db}
use jobsd.Sqlite.Engine.Keeps.{Keeps, Keeps-bind, Keeps-pure, Keeps-logged}
use jobsd.Sqlite.Engine.Returns.{Returns, Returns-bind, Returns-pure, logged_ok}
use jobsd.Sqlite.Deliveries.{create_delivery}
use jobsd.Daemon.Dispatcher.{
  Hooks, Payload, HookAttemptResult, is_final, deliver_attempt, record_attempt, attempt_all,
  attempts_of, resolve_config, deliver, notify, build_run_finished_payload,
}

-- The results of the tries from a given one on: until one is final, or no round is left.
unfoldable pub tries : ℕ → Hooks → OnFinishConfig → Payload → ℕ → List HookAttemptResult
tries zero hooks c payload attempt = []
tries (suc rounds) hooks c payload attempt =
    let r = deliver_attempt hooks c payload attempt in
    let later = tries rounds hooks c payload (attempt + 1) in r ∷ (if is_final r then [] else later)

create_delivery-Returns : (d : RunHookDelivery) → Returns (create_delivery d)
unfolding create_delivery
create_delivery-Returns d = record { at = λ db e. ground arith }

record_attempt-Returns :
    (hooks : Hooks) (run_id : ℕ) (c : OnFinishConfig) (attempt : ℕ) (r : HookAttemptResult)
    → Returns (record_attempt hooks run_id c attempt r)
unfolding record_attempt
record_attempt-Returns hooks run_id c attempt r =
    Returns-bind _ _ (create_delivery-Returns _) (λ created. Returns-pure tt)

module _ (hooks : Hooks) (run_id : ℕ) (c : OnFinishConfig) (payload : Payload) where
  pub attempt_all-tries :
      (rounds attempt : ℕ) (db : Db)
      → (attempt_all rounds hooks run_id c payload attempt db).0
        ≡ ok (tries rounds hooks c payload attempt)
  unfolding attempt_all tries
  attempt_all-tries zero attempt db = refl
  attempt_all-tries (suc rounds) attempt db =
      let r = deliver_attempt hooks c payload attempt in
      ground (
        arith,
        logged_ok (record_attempt hooks run_id c attempt r) db
            (record_attempt-Returns hooks run_id c attempt r),
        attempt_all-tries rounds (attempt + 1)
            (logged (record_attempt hooks run_id c attempt r) db).1,
      )

-- A run of tries: each but the last was neither a success nor beyond retrying, and the last was one
-- of these unless the rounds are used up.
abbrev pub IsRunOfTries : ℕ → List HookAttemptResult → Type 0
IsRunOfTries rounds [] = rounds ≡ 0
IsRunOfTries rounds (r ∷ []) = (0 < rounds) × ((is_final r ≡ true) ⊎ (rounds ≡ 1))
IsRunOfTries rounds (r ∷ s ∷ rs) =
    (0 < rounds) × (is_final r ≡ false) × IsRunOfTries (rounds - 1) (s ∷ rs)

IsRunOfTries-cons :
    (rounds : ℕ) (r : HookAttemptResult) (rs : List HookAttemptResult)
    → is_final r ≡ false
    → IsRunOfTries rounds rs
    → IsRunOfTries (suc rounds) (r ∷ rs)
IsRunOfTries-cons rounds r [] h k = (omega arith, inr (omega arith))
IsRunOfTries-cons rounds r (s ∷ rs) h k =
    let e : suc rounds - 1 ≡ rounds = omega arith in (omega arith, h, rw e k)

tries-IsRunOfTries :
    (rounds : ℕ) (hooks : Hooks) (c : OnFinishConfig) (payload : Payload) (attempt : ℕ)
    → IsRunOfTries rounds (tries rounds hooks c payload attempt)
unfolding tries
tries-IsRunOfTries zero hooks c payload attempt = refl
tries-IsRunOfTries (suc rounds) hooks c payload attempt =
    elim (Bool-cases (is_final (deliver_attempt hooks c payload attempt))) [
      | inl e ↦ rw e (omega arith, inl e)
      | inr e ↦ rw e (
          IsRunOfTries-cons rounds (deliver_attempt hooks c payload attempt)
            (tries rounds hooks c payload (attempt + 1)) e
            (tries-IsRunOfTries rounds hooks c payload (attempt + 1)))
    ]

length-tries-le :
    (rounds : ℕ) (hooks : Hooks) (c : OnFinishConfig) (payload : Payload) (attempt : ℕ)
    → length (tries rounds hooks c payload attempt) ≤ rounds
unfolding tries
length-tries-le zero hooks c payload attempt = omega arith
length-tries-le (suc rounds) hooks c payload attempt =
    ground (arith, length-tries-le rounds hooks c payload (attempt + 1))

length-tries-pos :
    (rounds : ℕ) (hooks : Hooks) (c : OnFinishConfig) (payload : Payload) (attempt : ℕ)
    → 1 ≤ rounds
    → 1 ≤ length (tries rounds hooks c payload attempt)
unfolding tries
length-tries-pos zero hooks c payload attempt h = h
length-tries-pos (suc rounds) hooks c payload attempt h = ground arith

-- adding one to a retry count that leaves room for it
attempts_of-room : (z : ℤ) → pos_part z + 1 < 2 ^ 63 → attempts_of z ≡ pos_part z + 1
unfolding attempts_of
attempts_of-room z room = ground arith

-- A hook that is configured, with a retry count below the largest integer of 64 bits, is tried at least once
-- and at most RetryCount times more, a retry count below zero counting as zero. It is tried again only after a
-- try that failed and may be repeated, and it is given up only after a try that succeeded or may not be
-- repeated, or when the tries are used up: a record that cannot be written changes nothing.
pub notify_tries :
    (env : Env) (metadata : Option (Action Db InstanceMetadata)) (hooks : Hooks)
    (instance_name : String) (job : Job) (run : Run) (db : Db) {c : OnFinishConfig} {db' : Db}
    → resolve_config env metadata job db ≡ (ok (some c), db')
    → pos_part c.retry_count + 1 < 2 ^ 63
    → (rs : List HookAttemptResult) × ((notify env metadata hooks instance_name job run db).0
        ≡ ok rs)
      × (1 ≤ length rs)
      × (length rs ≤ pos_part c.retry_count + 1)
      × IsRunOfTries (pos_part c.retry_count + 1) rs
unfolding notify deliver
notify_tries env metadata hooks instance_name job run db {c} {db'} h room =
    let payload = build_run_finished_payload instance_name job run hooks.now in
    let rounds = pos_part c.retry_count + 1 in
    let same = attempts_of-room c.retry_count room in
    let done = attempt_all-tries hooks run.id c payload rounds 1 db' in
    (
      tries rounds hooks c payload 1,
      rw (h, same) done,
      length-tries-pos rounds hooks c payload 1 (omega arith),
      length-tries-le rounds hooks c payload 1,
      tries-IsRunOfTries rounds hooks c payload 1,
    )

-- The tables that a hook may not touch.
abbrev pub SameRuns : List RunRow → Tables → Type 0
SameRuns runs t = t.runs ≡ runs

-- reading the metadata leaves the runs alone
abbrev pub MetadataKeepsRuns : Option (Action Db InstanceMetadata) → Type 0
MetadataKeepsRuns none = Unit
MetadataKeepsRuns (some read) = (runs : List RunRow) → Keeps (SameRuns runs) read

module _ (runs : List RunRow) where
  create_delivery-SameRuns : (d : RunHookDelivery) → Keeps (SameRuns runs) (create_delivery d)
  unfolding create_delivery
  create_delivery-SameRuns d = record { at = λ db h. ground arith }

  record_attempt-SameRuns :
      (hooks : Hooks) (run_id : ℕ) (c : OnFinishConfig) (attempt : ℕ) (r : HookAttemptResult)
      → Keeps (SameRuns runs) (record_attempt hooks run_id c attempt r)
  unfolding record_attempt
  record_attempt-SameRuns hooks run_id c attempt r =
      Keeps-bind _ _ (create_delivery-SameRuns _) (λ created. Keeps-pure tt)

  attempt_all-SameRuns :
      (rounds : ℕ) (hooks : Hooks) (run_id : ℕ) (c : OnFinishConfig) (payload : Payload)
      (attempt : ℕ)
      → Keeps (SameRuns runs) (attempt_all rounds hooks run_id c payload attempt)
  unfolding attempt_all
  attempt_all-SameRuns zero hooks run_id c payload attempt = Keeps-pure []
  attempt_all-SameRuns (suc rounds) hooks run_id c payload attempt =
      let r = deliver_attempt hooks c payload attempt in
      Keeps-bind _ _ (Keeps-logged _ (record_attempt-SameRuns hooks run_id c attempt r)) (λ done.
        go (attempt_all-SameRuns rounds hooks run_id c payload (attempt + 1)) (is_final r) r)
    where
      go :
          Keeps (SameRuns runs) (attempt_all rounds hooks run_id c payload (attempt + 1))
          → (final : Bool) (r : HookAttemptResult)
          → Keeps (SameRuns runs) (elim final [
            | true ↦ pure (r ∷ [])
            | false ↦
                (attempt_all rounds hooks run_id c payload (attempt + 1) >>= λ later.
                pure (r ∷ later))
          ])
      go k true r = Keeps-pure (r ∷ [])
      go k false r = Keeps-bind _ _ k (λ later. Keeps-pure (r ∷ later))

  resolve_config-SameRuns :
      (env : Env) (metadata : Option (Action Db InstanceMetadata)) (job : Job)
      → MetadataKeepsRuns metadata
      → Keeps (SameRuns runs) (resolve_config env metadata job)
  unfolding resolve_config
  resolve_config-SameRuns env none job k = record { at = λ db h. ground arith }
  resolve_config-SameRuns env (some read) job k = record {
    at = λ db h. ground (arith, (k runs).at db);
  }

  deliver-SameRuns :
      (hooks : Hooks) (instance_name : String) (job : Job) (run : Run) (c : Option OnFinishConfig)
      → Keeps (SameRuns runs) (deliver hooks instance_name job run c)
  unfolding deliver
  deliver-SameRuns hooks instance_name job run none = Keeps-pure []
  deliver-SameRuns hooks instance_name job run (some c) =
      attempt_all-SameRuns (attempts_of c.retry_count) hooks run.id c
        (build_run_finished_payload instance_name job run hooks.now) 1

-- Whatever becomes of a hook, every run in the database stays as it was, if reading the metadata
-- leaves the runs alone.
pub notify-runs :
    (env : Env) (metadata : Option (Action Db InstanceMetadata)) (hooks : Hooks)
    (instance_name : String) (job : Job) (run : Run) (db : Db)
    → MetadataKeepsRuns metadata
    → (notify env metadata hooks instance_name job run db).1.tables.runs ≡ db.tables.runs
unfolding notify
notify-runs env metadata hooks instance_name job run db k =
    let whole =
      Keeps-bind (resolve_config env metadata job) (deliver hooks instance_name job run)
        (resolve_config-SameRuns db.tables.runs env metadata job k)
        (deliver-SameRuns db.tables.runs hooks instance_name job run) in
    whole.at db refl
