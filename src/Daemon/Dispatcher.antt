-- ===== src/Daemon/Dispatcher.antt =====
-- internal/daemon/on_finish.go: delivering the hook of a finished run.
pub mod Attempts
pub mod Stored
pub mod Recorded
use jobsd.Common.{
  ℕ, zero, suc, ◌+◌, ◌-◌, ◌/◌, ◌^◌, ltb, leb, ◌==◌, Bool, true, false, not, ◌||◌, ◌&&◌, Option,
  none, some, List, [], ◌∷◌, String, ℤ, pos, negsuc, if◌then◌else◌, take, is_none,
}
use jobsd.Common.Int.{pos_part, is_negative}
use jobsd.Common.Text.{Runes}
use jobsd.Result.{Error, metadata_not_found, Result, ok, err, hang}
use jobsd.Result
use jobsd.Action.{Action, pure, lift, ◌>>=◌, ◌>>◌, logged}
use jobsd.Domain.{
  Time, Job, Run, RunOutput, RunStatus, OnFinishConfig, OnFinishSinkType, HookDeliveryStatus,
  InstanceMetadata, CommandSinkConfig, HttpSinkConfig,
}
use jobsd.Domain.OnFinish.{normalize_on_finish_config, default_preview_max_bytes}
use jobsd.Env.{Env}
use jobsd.Sqlite.{Stamp, format_time}
use jobsd.Sqlite.Engine.{Db}
use jobsd.Sqlite.Deliveries.{create_delivery}

abbrev pub run_finished_event : String
run_finished_event = "run.finished"

-- runFinishedPayload; the two paths are always nil and left out, a time is its RFC 3339 text
pub record Payload : Type 0 where
  pub version : ℕ
  pub event : String
  pub instance_name : String
  pub job_name : String
  pub run_id : ℕ
  pub schedule : Runes
  pub command_line : String
  pub status : RunStatus
  pub exit_code : Option ℤ
  pub started_at : Stamp
  pub finished_at : Stamp
  pub duration_ms : ℤ
  pub stdout_preview : List ℕ
  pub stderr_preview : List ℕ

abbrev pub time_or : Option Time → Time → Time
time_or none d = d
time_or (some t) d = t

-- finishedAt.Sub(startedAt).Milliseconds(), which rounds towards zero
unfoldable pub milliseconds_between : Time → Time → ℤ
milliseconds_between finished started =
    let forwards = (finished - started) / 1_000_000 in
    let backwards = (started - finished) / 1_000_000 in
    if backwards == 0 then pos forwards else negsuc (backwards - 1)

-- Taking the first 2048 bytes of a text that is no longer gives the text.
unfoldable pub preview_hook_output : Option RunOutput → Bool → List ℕ
preview_hook_output none stdout = []
preview_hook_output (some o) stdout =
    take default_preview_max_bytes (if stdout then o.stdout else o.stderr)

unfoldable pub build_run_finished_payload : String → Job → Run → Time → Payload
unfolding milliseconds_between preview_hook_output
build_run_finished_payload instance_name job run now =
    let finished = time_or run.finished_at now in
    let started = time_or run.started_at finished in
    record {
      version = 1;
      event = run_finished_event;
      instance_name = instance_name;
      job_name = job.name;
      run_id = run.id;
      schedule = job.schedule_expr;
      command_line = job.command_line;
      status = run.status;
      exit_code = run.exit_code;
      started_at = format_time started;
      finished_at = format_time finished;
      duration_ms = milliseconds_between finished started;
      stdout_preview = preview_hook_output run.output true;
      stderr_preview = preview_hook_output run.output false;
    }

-- What a command hook came to. The flag says that the deadline of the attempt was exceeded.
pub data CommandReply : Type 0 where
  done : CommandReply
  failed : Bool → String → CommandReply

-- What a POST came to: no request could be made, no response came, or a status code did.
pub data HttpReply : Type 0 where
  bad_request : String → HttpReply
  no_response : Bool → String → HttpReply
  response : ℕ → HttpReply

-- The outside of the dispatcher: the n-th attempt's times, and how its sink answers. `now` is the
-- time that stands in for a missing FinishedAt.
pub record Hooks : Type 0 where
  pub now : Time
  pub attempt_started : ℕ → Time
  pub attempt_finished : ℕ → Time
  pub run_command : ℕ → ℤ → CommandSinkConfig → Payload → CommandReply
  pub post : ℕ → ℤ → HttpSinkConfig → Payload → HttpReply

pub record HookAttemptResult : Type 0 where
  pub status : HookDeliveryStatus
  pub http_status_code : Option ℤ
  pub error_message : Option String
  pub retryable : Bool

abbrev pub timed_out : String → HookAttemptResult
timed_out message = record {
  status = HookDeliveryStatus.timed_out;
  http_status_code = none;
  error_message = some message;
  retryable = true;
}

abbrev pub failure : Option ℤ → String → Bool → HookAttemptResult
failure code message retryable = record {
  status = HookDeliveryStatus.failed;
  http_status_code = code;
  error_message = some message;
  retryable = retryable;
}

abbrev pub success : Option ℤ → HookAttemptResult
success code = record {
  status = HookDeliveryStatus.succeeded;
  http_status_code = code;
  error_message = none;
  retryable = false;
}

-- deliverCommand; the number in a message is left out
unfoldable pub deliver_command : CommandReply → HookAttemptResult
deliver_command done = success none
deliver_command (failed deadline message) =
    if deadline then timed_out "command hook timed out" else failure none message true

-- deliverHTTP
unfoldable pub deliver_http : HttpReply → HookAttemptResult
deliver_http (bad_request message) = failure none message false
deliver_http (no_response deadline message) =
    if deadline then timed_out "http hook timed out" else failure none message true
deliver_http (response code) =
    if leb 200 code && ltb code 300
    then success (some (pos code))
    else failure (some (pos code)) "http hook returned status" (leb 500 code)

-- deliverAttempt; the sink that the type names is there in a normal configuration
unfoldable pub deliver_sink :
    OnFinishSinkType
    → Option CommandSinkConfig
    → Option HttpSinkConfig
    → Hooks
    → ℕ
    → ℤ
    → Payload
    → HookAttemptResult
unfolding deliver_command deliver_http
deliver_sink OnFinishSinkType.command (some sink) other hooks attempt timeout payload =
    deliver_command (hooks.run_command attempt timeout sink payload)
deliver_sink OnFinishSinkType.http other (some sink) hooks attempt timeout payload =
    deliver_http (hooks.post attempt timeout sink payload)
deliver_sink _ _ _ hooks attempt timeout payload = failure none "unsupported on_finish type" false

unfoldable pub deliver_attempt : Hooks → OnFinishConfig → Payload → ℕ → HookAttemptResult
unfolding deliver_sink
deliver_attempt hooks c payload attempt =
    deliver_sink c.sink_type c.command_sink c.http_sink hooks attempt c.timeout_ms payload

unfoldable pub record_attempt : Hooks → ℕ → OnFinishConfig → ℕ → HookAttemptResult → Action Db Unit
record_attempt hooks run_id c attempt result = do
  created ← create_delivery (record {
    id = 0;
    run_id = run_id;
    event = run_finished_event;
    sink_type = c.sink_type;
    attempt = attempt;
    status = result.status;
    http_status_code = result.http_status_code;
    error_message = result.error_message;
    started_at = hooks.attempt_started attempt;
    finished_at = hooks.attempt_finished attempt;
  })
  pure tt

abbrev pub has_succeeded : HookDeliveryStatus → Bool
has_succeeded HookDeliveryStatus.succeeded = true
has_succeeded _ = false

-- The two `return nil` of the loop; without the test for the last attempt, after which the loop
-- ends as well.
abbrev pub is_final : HookAttemptResult → Bool
is_final r = has_succeeded r.status || not r.retryable

-- The `for` of Notify with `rounds` left. It returns the results of the attempts, which the code
-- does not keep, so that what it did can be stated.
unfoldable pub attempt_all :
    ℕ → Hooks → ℕ → OnFinishConfig → Payload → ℕ → Action Db (List HookAttemptResult)
unfolding record_attempt
attempt_all zero hooks run_id c payload attempt = pure []
attempt_all (suc rounds) hooks run_id c payload attempt = do
  let result = deliver_attempt hooks c payload attempt
  logged (record_attempt hooks run_id c attempt result)
  elim (is_final result) [
    | true ↦ pure (result ∷ [])
    | false ↦
        (attempt_all rounds hooks run_id c payload (attempt + 1) >>= λ later. pure (result ∷ later))
  ]

-- RetryCount + 1 on int64: past the largest number it wraps to a negative one, and no round is made
unfoldable pub attempts_of : ℤ → ℕ
attempts_of retry_count =
    let attempts = pos_part retry_count + 1 in if ltb attempts (2 ^ 63) then attempts else 0

unfoldable pub deliver :
    Hooks → String → Job → Run → Option OnFinishConfig → Action Db (List HookAttemptResult)
unfolding attempts_of
deliver hooks instance_name job run none = pure []
deliver hooks instance_name job run (some c) =
    attempt_all (attempts_of c.retry_count) hooks run.id c
      (build_run_finished_payload instance_name job run hooks.now) 1

module _ (env : Env) where
  unfoldable pub normalize_resolved_on_finish :
      Option OnFinishConfig → Result (Option OnFinishConfig)
  normalize_resolved_on_finish none = ok none
  normalize_resolved_on_finish (some config) =
      Result.◌>>=◌ (normalize_on_finish_config env config) (λ normalized. ok (some normalized))

  inherited : Result InstanceMetadata → Result (Option OnFinishConfig)
  inherited (ok meta) = normalize_resolved_on_finish meta.on_finish
  inherited (err Error.metadata_not_found) = ok none
  inherited (err e) = err e
  inherited hang = hang

  -- The metadata reader is an interface of the dispatcher, and may be absent.
  resolve_inherited : Option (Action Db InstanceMetadata) → Action Db (Option OnFinishConfig)
  unfolding inherited
  resolve_inherited none db = (ok none, db)
  resolve_inherited (some read) db = (inherited (read db).0, (read db).1)

  unfoldable pub resolve_config :
      Option (Action Db InstanceMetadata) → Job → Action Db (Option OnFinishConfig)
  unfolding resolve_inherited normalize_resolved_on_finish
  resolve_config metadata job =
      if not (is_none job.on_finish)
      then lift (normalize_resolved_on_finish job.on_finish)
      else if job.disable_inherited_on_finish
      then pure none
      else resolve_inherited metadata

  unfoldable pub notify :
      Option (Action Db InstanceMetadata)
      → Hooks
      → String
      → Job
      → Run
      → Action Db (List HookAttemptResult)
  notify metadata hooks instance_name job run = do
    config ← resolve_config metadata job
    deliver hooks instance_name job run config
