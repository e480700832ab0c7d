-- ===== src/App/Client/Agreement.antt =====
-- The client against the server: who holds the token of a scheduler, and nobody else, finds it running.
use text.Mathlib.Text.{◌==◌ as str_eq}
use jobsd.Common.{true, false, none, some, if◌then◌else◌, ◌≡◌, arith, eq_iff}
use jobsd.Result.{ok}
use jobsd.Domain.{SchedulerState, SchedulerStatus}
use jobsd.Daemon.Control.{Method, Route, Request, handle, ping_response, scheduler_response}
use jobsd.App.Client.{Transport, ping, get_scheduler, inspect_scheduler}

-- the scheduler of a state behind every port
abbrev pub served_by : SchedulerState → Transport
served_by served port request = some (handle served request).0

-- The client that has read a state file with a token in it, and asks the scheduler that answers, finds
-- it running with what that scheduler says of itself if the two tokens are the same, and stale if not.
pub inspect_scheduler-handle :
    (state served : SchedulerState)
    → str_eq state.token "" ≡ false
    → let found = inspect_scheduler (served_by served) (ok state) in
      (found.status ≡ (
        if str_eq state.token served.token then SchedulerStatus.running else SchedulerStatus.stale))
      × (found.scheduler_info
          ≡ (if str_eq state.token served.token then some (scheduler_response served) else none))
      × (found.ping
          ≡ (if str_eq state.token served.token then some (ping_response served) else none))
unfolding inspect_scheduler get_scheduler ping handle
inspect_scheduler-handle state served visible = (ground arith, ground arith, ground arith)

-- A request that the handlers answer by asking for a shutdown is a POST of the shutdown path, and bears
-- the token of the scheduler.
pub handle-token :
    (state : SchedulerState) (request : Request)
    → (handle state request).1 ≡ true
    → (request.token ≡ state.token)
      × (request.method ≡ Method.post)
      × (request.route ≡ Route.shutdown)
unfolding handle
handle-token state request h =
    let same = (eq_iff request.token state.token).0 in (ground arith, ground arith, ground arith)
