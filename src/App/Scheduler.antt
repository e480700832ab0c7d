-- ===== src/App/Scheduler.antt =====
-- internal/app/scheduler.go: the commands that start, inspect and stop the scheduler of an instance. A
-- loop that polls until a deadline takes the list of what it finds before that.
pub mod Waiting
use jobsd.Common.{
  Bool, true, false, not, ◌&&◌, Option, none, some, List, [], ◌∷◌, String, ℤ, pos, if◌then◌else◌,
}
use jobsd.Result.{
  Error, system, state_not_found, invalid, Result, ok, err, hang, ◌>>=◌, ◌>>◌, refuse_if,
}
use jobsd.Domain.{SchedulerState, SchedulerStatus}
use jobsd.Sqlite.{Stamp, format_time}
use jobsd.Daemon.Control.{PingResponse, SchedulerResponse}
use jobsd.App.Client.{SchedulerInspection}

pub record SchedulerOutput : Type 0 where
  pub instance_name : String
  pub status : SchedulerStatus
  pub pid : ℤ
  pub port : ℤ
  pub db_path : String
  pub started_at : Option Stamp
  pub version : String
  pub reason : Option Error

abbrev pub bare_output : String → SchedulerStatus → Option Error → SchedulerOutput
bare_output name status reason = record {
  instance_name = name;
  status = status;
  pid = pos 0;
  port = pos 0;
  db_path = "";
  started_at = none;
  version = "";
  reason = reason;
}

abbrev pub with_state : Option SchedulerState → SchedulerOutput → SchedulerOutput
with_state none output = output
with_state (some state) output = record output {
  pid = state.pid;
  port = state.port;
  db_path = state.db_path;
  started_at = some (format_time state.started_at);
  version = state.version;
}

abbrev pub with_info : Option SchedulerResponse → SchedulerOutput → SchedulerOutput
with_info none output = output
with_info (some info) output = record {
  instance_name = info.instance_name;
  status = info.status;
  pid = info.pid;
  port = info.port;
  db_path = info.db_path;
  started_at = some info.started_at;
  version = info.version;
  reason = none;
}

unfoldable pub scheduler_output_from_inspection : String → SchedulerInspection → SchedulerOutput
scheduler_output_from_inspection name i =
    with_info i.scheduler_info (with_state i.state (bare_output name i.status i.reason))

abbrev pub is_running : SchedulerStatus → Bool
is_running SchedulerStatus.running = true
is_running _ = false

-- A round of waitForSchedulerStart; whether the context is done when it has waited.
pub record StartPoll : Type 0 where
  pub inspection : Result SchedulerInspection
  pub canceled : Bool

abbrev pub start_found : Result SchedulerInspection → Bool
start_found (ok i) = is_running i.status
start_found (err e) = false
start_found hang = false

-- waitForSchedulerStart
unfoldable pub wait_for_scheduler_start : List StartPoll → Result SchedulerInspection
wait_for_scheduler_start [] = err (invalid "scheduler did not become ready")
wait_for_scheduler_start (poll ∷ polls) =
    let later = wait_for_scheduler_start polls in
    if start_found poll.inspection
    then poll.inspection
    else if poll.canceled
    then err (invalid "context canceled")
    else later

-- A round of waitForSchedulerStop: what ReadState and ping have answered.
pub record StopPoll : Type 0 where
  pub state : Result SchedulerState
  pub ping : Result PingResponse
  pub canceled : Bool

abbrev pub is_absent : Result SchedulerState → Bool
is_absent (err Error.state_not_found) = true
is_absent _ = false

abbrev pub no_answer : Result PingResponse → Bool
no_answer (ok p) = false
no_answer (err e) = true
no_answer hang = false

-- waitForSchedulerStop
unfoldable pub wait_for_scheduler_stop : List StopPoll → Result (Unit {0})
wait_for_scheduler_stop [] = err (invalid "scheduler did not stop")
wait_for_scheduler_stop (poll ∷ polls) =
    let later = wait_for_scheduler_stop polls in
    if is_absent poll.state && no_answer poll.ping
    then ok tt
    else if poll.canceled
    then err (invalid "context canceled")
    else later

-- `scheduler start`: the inspection, os.Executable, the start of the process, and the polls
unfoldable pub start_command :
    String
    → Result SchedulerInspection
    → Result (Unit {0})
    → Result (Unit {0})
    → List StartPoll
    → Result SchedulerOutput
unfolding wait_for_scheduler_start scheduler_output_from_inspection
start_command name inspected executable started polls = do
  inspection ← inspected
  refuse_if (is_running inspection.status) (invalid "instance is already running")
  executable
  started
  ready ← wait_for_scheduler_start polls
  ok (scheduler_output_from_inspection name ready)

-- `scheduler status`
unfoldable pub status_command : String → Result SchedulerInspection → Result SchedulerOutput
unfolding scheduler_output_from_inspection
status_command name inspected =
    inspected >>= λ inspection. ok (scheduler_output_from_inspection name inspection)

-- the switch that `stop` and `ping` begin with
abbrev pub refuse_idle : SchedulerStatus → Result (Unit {0})
refuse_idle SchedulerStatus.stopped = err (invalid "instance is not running")
refuse_idle SchedulerStatus.stale = err (invalid "instance is stale")
refuse_idle _ = ok tt

abbrev pub available {ℓ} : {A : Type ℓ} → Option A → Result A
available none = err (invalid "state or answer is unavailable")
available (some a) = ok a

-- `scheduler stop`; `shutdown` is the request at a state
unfoldable pub stop_command :
    String
    → Result SchedulerInspection
    → (SchedulerState → Result (Unit {0}))
    → List StopPoll
    → Result SchedulerOutput
unfolding wait_for_scheduler_stop
stop_command name inspected shutdown polls = do
  inspection ← inspected
  refuse_idle inspection.status
  state ← available inspection.state
  shutdown state
  wait_for_scheduler_stop polls
  ok (bare_output name SchedulerStatus.stopped none)

-- `scheduler ping`
unfoldable pub ping_command : Result SchedulerInspection → Result SchedulerOutput
ping_command inspected = do
  inspection ← inspected
  refuse_idle inspection.status
  ping ← available inspection.ping
  ok (record {
    instance_name = ping.instance_name;
    status = ping.status;
    pid = ping.pid;
    port = ping.port;
    db_path = "";
    started_at = some ping.started_at;
    version = ping.version;
    reason = none;
  })
