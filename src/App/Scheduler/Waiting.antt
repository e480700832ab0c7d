-- ===== src/App/Scheduler/Waiting.antt =====
-- What the commands have seen when they report that a scheduler runs or has stopped.
use jobsd.Common.{
  Bool, true, false, ◌&&◌, some, List, [], ◌∷◌, String, ◌≡◌, arith, eq_iff, if◌then◌else◌,
}
use jobsd.Result.{ok}
use jobsd.Domain.{SchedulerState, SchedulerStatus}
use jobsd.Daemon.Control.{Request, Method, Route, handle}
use jobsd.App.Client.{Transport, shutdown, inspect_scheduler}
use jobsd.App.Scheduler.{
  SchedulerOutput, StopPoll, is_absent, no_answer, wait_for_scheduler_stop, stop_command,
}

-- whether a round found the state file gone and the scheduler silent, and none before it was canceled
unfoldable pub seen_stopped : List StopPoll → Bool
seen_stopped [] = false
seen_stopped (poll ∷ polls) =
    let later = seen_stopped polls in
    if is_absent poll.state && no_answer poll.ping
    then true
    else if poll.canceled
    then false
    else later

wait_for_scheduler_stop_lem :
    (polls : List StopPoll) → wait_for_scheduler_stop polls ≡ ok tt → seen_stopped polls ≡ true
unfolding wait_for_scheduler_stop seen_stopped
wait_for_scheduler_stop_lem [] h = ground arith
wait_for_scheduler_stop_lem (poll ∷ polls) h =
    let later = wait_for_scheduler_stop_lem polls in ground arith

-- the request with which `scheduler stop` asks for a shutdown
abbrev pub stop_request_of : SchedulerState → Request
stop_request_of state = record { method = Method.post; route = Route.shutdown; token = state.token }

shutdown_sent :
    (transport : Transport) (state served : SchedulerState)
    → transport state.port (stop_request_of state) ≡ some (handle served (stop_request_of state)).0
    → shutdown transport state ≡ ok tt
    → (handle served (stop_request_of state)).1 ≡ true
unfolding shutdown handle
shutdown_sent transport state served answered h = let said = rw answered at h in ground arith

inspected_state :
    (transport : Transport) (state : SchedulerState)
    → (inspect_scheduler transport (ok state)).state ≡ some state
unfolding inspect_scheduler
inspected_state transport state = ground arith

-- If `scheduler stop` succeeds, and a scheduler stands behind the request for its shutdown, whatever answers the
-- other requests, then the command has sent that request and it made the scheduler ask for its shutdown, with
-- its token; a round of the wait found the state file gone and the scheduler silent, before the context was
-- done; and the command prints that it has stopped.
pub stop_command-handle :
    (name : String) (transport : Transport) (state served : SchedulerState) (polls : List StopPoll)
    {out : SchedulerOutput}
    → transport state.port (stop_request_of state) ≡ some (handle served (stop_request_of state)).0
    → stop_command name (ok (inspect_scheduler transport (ok state))) (shutdown transport) polls
      ≡ ok out
    → (state.token ≡ served.token)
      × ((handle served (stop_request_of state)).1 ≡ true)
      × (seen_stopped polls ≡ true)
      × (out.status ≡ SchedulerStatus.stopped)
unfolding stop_command handle
stop_command-handle name transport state served polls {out} answered h =
    let same = (eq_iff state.token served.token).0 in
    let seen = wait_for_scheduler_stop_lem polls in
    let sent = shutdown_sent transport state served answered in
    let found = inspected_state transport state in
    (ground arith, ground arith, ground arith, ground arith)
