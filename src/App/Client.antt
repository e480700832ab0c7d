-- ===== src/App/Client.antt =====
-- internal/app/scheduler_client.go: what the command line asks a scheduler.
pub mod Agreement
use text.Mathlib.Text.{◌==◌ as str_eq}
use jobsd.Common.{
  ℕ, ◌==◌, Bool, true, false, not, Option, none, some, String, ℤ, pos, if◌then◌else◌,
}
use jobsd.Result.{Error, system, state_not_found, invalid, Result, ok, err, hang, ◌>>=◌}
use jobsd.Domain.{SchedulerState, SchedulerStatus}
use jobsd.Daemon.Control.{
  PingResponse, SchedulerResponse, Method, Route, Request, Body, ping_body, scheduler_body,
  error_body, no_body, Reply,
}

-- http.Client.Do at the address of a scheduler's port: none if no reply came
abbrev pub Transport : Type 0
Transport = ℤ → Request → Option Reply

abbrev pub expect : ℕ → Option Reply → Result Body
expect code none = err system
expect code (some reply) =
    if reply.status_code == code
    then ok reply.body
    else err (invalid "scheduler api returned status")

-- doJSON up to the decoding of the body
unfoldable pub do_json : Transport → SchedulerState → Method → Route → ℕ → Result Body
do_json transport state method route code =
    expect code
      (transport state.port (record { method = method; route = route; token = state.token }))

-- encoding/json into a PingResponse: a field that the object has not stays empty, and one that the
-- type has not is passed over
unfoldable pub decode_ping : Body → Result PingResponse
decode_ping (ping_body p) = ok p
decode_ping (scheduler_body s) = ok (record {
  instance_name = s.instance_name;
  status = s.status;
  pid = s.pid;
  port = s.port;
  started_at = s.started_at;
  version = s.version;
})
decode_ping (error_body message) = ok (record {
  instance_name = "";
  status = SchedulerStatus.unknown "";
  pid = pos 0;
  port = pos 0;
  started_at = 0;
  version = "";
})
decode_ping no_body = err (invalid "decode scheduler api response")

unfoldable pub decode_scheduler : Body → Result SchedulerResponse
decode_scheduler (scheduler_body s) = ok s
decode_scheduler (ping_body p) = ok (record {
  instance_name = p.instance_name;
  status = p.status;
  pid = p.pid;
  port = p.port;
  db_path = "";
  started_at = p.started_at;
  version = p.version;
})
decode_scheduler (error_body message) = ok (record {
  instance_name = "";
  status = SchedulerStatus.unknown "";
  pid = pos 0;
  port = pos 0;
  db_path = "";
  started_at = 0;
  version = "";
})
decode_scheduler no_body = err (invalid "decode scheduler api response")

module _ (transport : Transport) where
  unfoldable pub ping : SchedulerState → Result PingResponse
  unfolding do_json decode_ping
  ping state = do_json transport state Method.get Route.ping 200 >>= decode_ping

  unfoldable pub get_scheduler : SchedulerState → Result SchedulerResponse
  unfolding do_json decode_scheduler
  get_scheduler state = do_json transport state Method.get Route.scheduler 200 >>= decode_scheduler

  unfoldable pub shutdown : SchedulerState → Result (Unit {0})
  unfolding do_json
  shutdown state = do_json transport state Method.post Route.shutdown 204 >>= λ body. ok tt

-- schedulerInspection; the reason is kept as the error that it is the text of
pub record SchedulerInspection : Type 0 where
  pub state : Option SchedulerState
  pub status : SchedulerStatus
  pub reason : Option Error
  pub ping : Option PingResponse
  pub scheduler_info : Option SchedulerResponse

abbrev pub stale : Option SchedulerState → Error → SchedulerInspection
stale state reason = record {
  state = state;
  status = SchedulerStatus.stale;
  reason = some reason;
  ping = none;
  scheduler_info = none;
}

abbrev pub stopped : SchedulerInspection
stopped = record {
  state = none;
  status = SchedulerStatus.stopped;
  reason = none;
  ping = none;
  scheduler_info = none;
}

abbrev pub inspect_ping :
    SchedulerState → SchedulerResponse → Result PingResponse → SchedulerInspection
inspect_ping state info (ok p) = record {
  state = some state;
  status = SchedulerStatus.running;
  reason = none;
  ping = some p;
  scheduler_info = some info;
}
inspect_ping state info (err e) = stale (some state) e
inspect_ping state info hang = stale (some state) system

abbrev pub inspect_info :
    Transport → SchedulerState → Result SchedulerResponse → SchedulerInspection
inspect_info transport state (ok info) = inspect_ping state info (ping transport state)
inspect_info transport state (err e) = stale (some state) e
inspect_info transport state hang = stale (some state) system

-- inspectScheduler, of what ReadState has given
unfoldable pub inspect_scheduler : Transport → Result SchedulerState → SchedulerInspection
inspect_scheduler transport (ok state) =
    if str_eq state.token ""
    then stale (some state) (invalid "scheduler state is missing token")
    else inspect_info transport state (get_scheduler transport state)
inspect_scheduler transport (err Error.state_not_found) = stopped
inspect_scheduler transport (err e) = stale none e
inspect_scheduler transport hang = stale none system
