-- ===== src/Daemon/Dispatcher/Recorded.antt =====
-- Every try of a hook leaves a row in run_hook_deliveries.
use mathlib.Core.List.{append-nil, append_assoc}
use text.Mathlib.Text.{◌==◌ as str_eq}
use jobsd.Common.{
  ℕ, zero, suc, ◌+◌, ◌==◌, true, false, Option, some, List, [], ◌∷◌, ◌++◌, String, is_none,
  find_where, length, ◌≡◌, ap, refl, ◌∙◌, arith, Bool-cases, inl, inr,
}
use jobsd.Result.{ok}
use jobsd.Action.{Action, logged, pure, ◌>>=◌}
use jobsd.Domain.{
  RunHookDelivery, Job, Run, OnFinishConfig, InstanceMetadata, sink_type_is_valid,
  delivery_status_is_valid, is_zero_time,
}
use jobsd.Env.{Env}
use jobsd.Sqlite.{Tables, DeliveryRow, format_time}
use jobsd.Sqlite.Engine.{Db, exec, tick}
use jobsd.Sqlite.Deliveries.{insert_delivery, create_delivery}
use jobsd.Daemon.Dispatcher.{
  Hooks, Payload, HookAttemptResult, is_final, run_finished_event, deliver_command, deliver_http,
  deliver_sink, deliver_attempt, record_attempt, attempt_all, attempts_of, resolve_config, deliver,
  notify, build_run_finished_payload,
}
use jobsd.Daemon.Dispatcher.Attempts.{tries, attempt_all-tries}

-- the row of a delivery
abbrev delivery_of : RunHookDelivery → ℕ → DeliveryRow
delivery_of d id = record {
  id = id;
  run_id = d.run_id;
  event = d.event;
  sink_type = d.sink_type;
  attempt = d.attempt;
  status = d.status;
  http_status_code = d.http_status_code;
  error_message = d.error_message;
  started_at = format_time d.started_at;
  finished_at = format_time d.finished_at;
}

-- what recordAttempt gives to Create
abbrev pub attempt_delivery : Hooks → ℕ → OnFinishConfig → ℕ → HookAttemptResult → RunHookDelivery
attempt_delivery hooks run_id c attempt r = record {
  id = 0;
  run_id = run_id;
  event = run_finished_event;
  sink_type = c.sink_type;
  attempt = attempt;
  status = r.status;
  http_status_code = r.http_status_code;
  error_message = r.error_message;
  started_at = hooks.attempt_started attempt;
  finished_at = hooks.attempt_finished attempt;
}

abbrev pub delivery_row : Hooks → ℕ → OnFinishConfig → ℕ → ℕ → HookAttemptResult → DeliveryRow
delivery_row hooks run_id c id attempt r =
    delivery_of (attempt_delivery hooks run_id c attempt r) id

-- the rows of the tries from a given one on, after those that have an id up to `seq`
abbrev pub delivery_rows :
    Hooks → ℕ → OnFinishConfig → ℕ → ℕ → List HookAttemptResult → List DeliveryRow
delivery_rows hooks run_id c seq attempt [] = []
delivery_rows hooks run_id c seq attempt (r ∷ rs) =
    delivery_row hooks run_id c (suc seq) attempt r
    ∷ delivery_rows hooks run_id c (suc seq) (attempt + 1) rs

-- the tables with more deliveries
abbrev pub with_deliveries : Tables → List DeliveryRow → Tables
with_deliveries t rows = record t {
  delivery_seq = t.delivery_seq + length rows;
  deliveries = t.deliveries ++ rows;
}

with_no_deliveries : (t : Tables) → t ≡ with_deliveries t []
with_no_deliveries t = ground (arith, append-nil t.deliveries)

with_more_deliveries :
    (t : Tables) (row : DeliveryRow) (rows : List DeliveryRow)
    → with_deliveries (with_deliveries t (row ∷ [])) rows ≡ with_deliveries t (row ∷ rows)
with_more_deliveries t row rows = ground (arith, append_assoc t.deliveries (row ∷ []) rows)

-- What CreateDelivery asks of a hook: a known sink, and times that are set.
pub record CanRecord (hooks : Hooks) (c : OnFinishConfig) : Type 0 where
  pub sink : sink_type_is_valid c.sink_type ≡ true
  pub started : (n : ℕ) → is_zero_time (hooks.attempt_started n) ≡ false
  pub finished : (n : ℕ) → is_zero_time (hooks.attempt_finished n) ≡ false

deliver_attempt_valid :
    (hooks : Hooks) (c : OnFinishConfig) (payload : Payload) (attempt : ℕ)
    → delivery_status_is_valid (deliver_attempt hooks c payload attempt).status ≡ true
unfolding deliver_attempt deliver_sink deliver_command deliver_http
deliver_attempt_valid hooks c payload attempt = ground arith

-- the statement and the checks of Create
created :
    (d : RunHookDelivery) (db : Db)
    → (d.run_id == 0) ≡ false
    → str_eq d.event "" ≡ false
    → sink_type_is_valid d.sink_type ≡ true
    → (d.attempt == 0) ≡ false
    → delivery_status_is_valid d.status ≡ true
    → is_zero_time d.started_at ≡ false
    → is_zero_time d.finished_at ≡ false
    → create_delivery d db ≡ (exec (insert_delivery d) >>= λ id. pure (record d { id = id })) db
unfolding create_delivery
created d db a b c e f g h = rw (a, b, c, e, f, g, h) refl

inserted :
    (d : RunHookDelivery) (db : Db)
    → is_none (find_where (λ r. r.id == d.run_id) db.tables.runs) ≡ false
    → db.refuses db.statements ≡ false
    → exec (insert_delivery d) db ≡ (
      ok (suc db.tables.delivery_seq),
      record (tick db) {
        tables = with_deliveries db.tables (delivery_of d (suc db.tables.delivery_seq) ∷ []);
      },
    )
unfolding insert_delivery
inserted d db found free = ground arith

logged_bind :
    {A : Type 0} (m : Action Db A) (db db' : Db) (a : A)
    → m db ≡ (ok a, db')
    → logged (m >>= λ x. pure tt) db ≡ (ok tt, db')
logged_bind m db db' a e = ground arith

then_pure :
    {A B : Type 0} (m : Action Db A) (f : A → B) (db db' : Db) (a : A)
    → m db ≡ (ok a, db')
    → (m >>= λ x. pure (f x)) db ≡ (ok (f a), db')
then_pure m f db db' a e = rw e refl

pure_tables :
    {A B : Type 0} (m : Action Db A) (f : A → B) (db : Db)
    → ((m >>= λ x. pure (f x)) db).1.tables ≡ (m db).1.tables
pure_tables m f db = ground arith

module _ (hooks : Hooks) (run_id : ℕ) (c : OnFinishConfig) (fits : CanRecord hooks c)
    (named : (run_id == 0) ≡ false) where
  record_attempt-row :
      (attempt : ℕ) (r : HookAttemptResult)
      → (attempt == 0) ≡ false
      → delivery_status_is_valid r.status ≡ true
      → (db : Db) → is_none (find_where (λ x. x.id == run_id) db.tables.runs) ≡ false
      → ((n : ℕ) → db.refuses n ≡ false)
      → logged (record_attempt hooks run_id c attempt r) db ≡ (
        ok tt,
        record (tick db) {
          tables =
              with_deliveries db.tables
                (delivery_row hooks run_id c (suc db.tables.delivery_seq) attempt r ∷ []);
        },
      )
  unfolding record_attempt
  record_attempt-row attempt r counts known db found never =
      let d = attempt_delivery hooks run_id c attempt r in
      let after : Db = record (tick db) {
        tables = with_deliveries db.tables (delivery_of d (suc db.tables.delivery_seq) ∷ []);
      } in
      let id = suc db.tables.delivery_seq in
      let called =
        created d db named refl fits.sink counts known (fits.started attempt)
          (fits.finished attempt) in
      let done =
        then_pure (exec (insert_delivery d)) (λ id. record d { id = id }) db after id
          (inserted d db found (never db.statements)) in
      logged_bind (create_delivery d) db after (record d { id = id }) (called ∙ done)

  -- the rounds of the loop
  attempt_all-rows :
      (payload : Payload) (rounds attempt : ℕ) (db : Db)
      → (attempt == 0) ≡ false
      → is_none (find_where (λ x. x.id == run_id) db.tables.runs) ≡ false
      → ((n : ℕ) → db.refuses n ≡ false)
      → (attempt_all rounds hooks run_id c payload attempt db).1.tables
        ≡ with_deliveries db.tables (
            delivery_rows hooks run_id c db.tables.delivery_seq attempt
              (tries rounds hooks c payload attempt))
  unfolding attempt_all tries
  attempt_all-rows payload zero attempt db counts found never = with_no_deliveries db.tables
  attempt_all-rows payload (suc rounds) attempt db counts found never =
      let r = deliver_attempt hooks c payload attempt in
      let known = deliver_attempt_valid hooks c payload attempt in
      let first = record_attempt-row attempt r counts known db found never in
      let row = delivery_row hooks run_id c (suc db.tables.delivery_seq) attempt r in
      let mid : Db = record (tick db) { tables = with_deliveries db.tables (row ∷ []) } in
      let rest = attempt_all-rows payload rounds (attempt + 1) mid (ground arith) found never in
      let later : ℕ → List DeliveryRow = λ seq.
        delivery_rows hooks run_id c seq (attempt + 1)
          (tries rounds hooks c payload (attempt + 1)) in
      let next : db.tables.delivery_seq + 1 ≡ suc db.tables.delivery_seq = omega arith in
      elim (Bool-cases (is_final r)) [
        | inl e ↦ rw (first, e) refl
        | inr e ↦
            rw (first, e)
              (pure_tables (attempt_all rounds hooks run_id c payload (attempt + 1))
                  (λ later. r ∷ later) mid
                ∙ rest
                ∙ with_more_deliveries db.tables row (later (db.tables.delivery_seq + 1))
                ∙ ap (λ seq. with_deliveries db.tables (row ∷ later seq)) next)
      ]

-- If the engine refuses no statement, every try of a hook that is configured leaves a row of its own: the
-- deliveries are those that were there and, in the order of the tries and numbered from one, a row for each of
-- them with its outcome and its times. No other table changes. The run has to be in the table under an id that
-- is not zero, the sink known, and the times of the tries set.
pub notify_recorded :
    (env : Env) (metadata : Option (Action Db InstanceMetadata)) (hooks : Hooks)
    (instance_name : String) (job : Job) (run : Run) (db : Db) {c : OnFinishConfig} {db' : Db}
    → resolve_config env metadata job db ≡ (ok (some c), db')
    → CanRecord hooks c
    → (run.id == 0) ≡ false
    → is_none (find_where (λ x. x.id == run.id) db'.tables.runs) ≡ false
    → ((n : ℕ) → db'.refuses n ≡ false)
    → (rs : List HookAttemptResult) × ((notify env metadata hooks instance_name job run db).0
        ≡ ok rs)
      × ((notify env metadata hooks instance_name job run db).1.tables
          ≡ with_deliveries db'.tables (delivery_rows hooks run.id c db'.tables.delivery_seq 1 rs))
unfolding notify deliver
notify_recorded env metadata hooks instance_name job run db {c} {db'} h fits named found never =
    let payload = build_run_finished_payload instance_name job run hooks.now in
    let rounds = attempts_of c.retry_count in
    (
      tries rounds hooks c payload 1,
      rw h (attempt_all-tries hooks run.id c payload rounds 1 db'),
      rw h (attempt_all-rows hooks run.id c fits named payload rounds 1 db' refl found never),
    )
