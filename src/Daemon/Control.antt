-- ===== src/Daemon/Control.antt =====
-- internal/daemon/control.go: the handlers of the control API, as functions of a request. The HTTP
-- server around them, its listener and its writer are package net/http's.
use text.Mathlib.Text.{◌==◌ as str_eq}
use jobsd.Common.{ℕ, Bool, true, false, not, String, ℤ, if◌then◌else◌}
use jobsd.Domain.{SchedulerState, SchedulerStatus}
use jobsd.Sqlite.{Stamp, format_time}

pub record PingResponse : Type 0 where
  pub instance_name : String
  pub status : SchedulerStatus
  pub pid : ℤ
  pub port : ℤ
  pub started_at : Stamp
  pub version : String

pub record SchedulerResponse : Type 0 where
  pub instance_name : String
  pub status : SchedulerStatus
  pub pid : ℤ
  pub port : ℤ
  pub db_path : String
  pub started_at : Stamp
  pub version : String

pub data Method : Type 0 where
  get post other : Method

-- The patterns of the mux; a path that is none of them is answered by net/http itself.
pub data Route : Type 0 where
  ping scheduler shutdown other : Route

-- `token` is the X-Jobs-Token header, empty if it is not there.
pub record Request : Type 0 where
  pub method : Method
  pub route : Route
  pub token : String

pub data Body : Type 0 where
  ping_body : PingResponse → Body
  scheduler_body : SchedulerResponse → Body
  error_body : String → Body
  no_body : Body

pub record Reply : Type 0 where
  pub status_code : ℕ
  pub body : Body

-- A reply, and whether the handler has called requestShutdown.
abbrev pub Handled : Type 0
Handled = Reply × Bool

abbrev pub write_json : ℕ → Body → Handled
write_json code body = (record { status_code = code; body = body }, false)

abbrev pub write_method_not_allowed : Handled
write_method_not_allowed = write_json 405 (error_body "method not allowed")

unfoldable pub ping_response : SchedulerState → PingResponse
ping_response state = record {
  instance_name = state.instance_name;
  status = SchedulerStatus.running;
  pid = state.pid;
  port = state.port;
  started_at = format_time state.started_at;
  version = state.version;
}

unfoldable pub scheduler_response : SchedulerState → SchedulerResponse
scheduler_response state = record {
  instance_name = state.instance_name;
  status = SchedulerStatus.running;
  pid = state.pid;
  port = state.port;
  db_path = state.db_path;
  started_at = format_time state.started_at;
  version = state.version;
}

unfoldable pub handle_ping : SchedulerState → Method → Handled
handle_ping state Method.get = write_json 200 (ping_body (ping_response state))
handle_ping state _ = write_method_not_allowed

unfoldable pub handle_scheduler : SchedulerState → Method → Handled
handle_scheduler state Method.get = write_json 200 (scheduler_body (scheduler_response state))
handle_scheduler state _ = write_method_not_allowed

unfoldable pub handle_shutdown : Method → Handled
handle_shutdown Method.post = (record { status_code = 204; body = no_body }, true)
handle_shutdown _ = write_method_not_allowed

-- withTokenAuth
unfoldable pub with_token_auth : String → Handled → Request → Handled
with_token_auth token next request =
    if not (str_eq request.token token)
    then write_json 401 (error_body "missing or invalid X-Jobs-Token")
    else next

abbrev pub route_to : SchedulerState → Request → Route → Handled
route_to state request Route.ping =
    with_token_auth state.token (handle_ping state request.method) request
route_to state request Route.scheduler =
    with_token_auth state.token (handle_scheduler state request.method) request
route_to state request Route.shutdown =
    with_token_auth state.token (handle_shutdown request.method) request
route_to state request Route.other = write_json 404 no_body

-- the mux of startControlServer
unfoldable pub handle : SchedulerState → Request → Handled
unfolding handle_ping handle_scheduler handle_shutdown with_token_auth
handle state request = route_to state request request.route
