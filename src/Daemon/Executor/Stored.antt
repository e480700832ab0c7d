-- ===== src/Daemon/Executor/Stored.antt =====
-- What a client reads of a run whose command has ended.
use jobsd.Common.{
  suc, Bool, true, false, not, ◌&&◌, Option, String, ℤ, pos, none, some, List, ℕ, if◌then◌else◌,
  ◌==◌, ltb, is_none, length, take, ◌≡◌, ◌≢◌, ◌⊎◌, inr, refl, ap, arith, ◌*◌,
}
use jobsd.Common.Lists.Taking.{length-take}
use jobsd.Result.{ok}
use jobsd.Domain.{Time, Run, RunOutput, RunStatus, is_zero_time}
use jobsd.Sqlite.Engine.{Db}
use jobsd.Sqlite.RunResults.{FinishRunParams, mark_finished, is_undated, get_run_with_output}
use jobsd.Sqlite.RunResults.Finishing.{mark_finished_succeeds}
use jobsd.Sqlite.RunResults.Scanned.{whole_seconds, shown_output}
use jobsd.Sqlite.RunResults.ReadBack.{get_run_with_output_found, mark_finished-get_run_with_output}
use jobsd.Daemon.Loop.{CancelReason, ActiveRun}
use jobsd.Daemon.Completion.{ExecutionResult, final_message, finish_params}
use jobsd.Daemon.Executor.{
  Outcome, Finished, read_captured_stream, build_run_output, execute, refused, finished, verdict,
  exit_code_from_command,
}
use jobsd.Daemon.Executor.Capture.{stream_bytes, read_captured_stream-Captures}
use jobsd.Daemon.Executor.Verdict.{went_well, stream_error, execute_verdict}

-- the status that Execute answers, and its output, which has the time of the end
execute_final :
    (started_at finished_at : Time) (o : Outcome)
    → is_zero_time finished_at ≡ false
    → (((execute started_at finished_at o).status ≡ RunStatus.succeeded)
        ⊎ ((execute started_at finished_at o).status ≡ RunStatus.failed))
      × (is_undated (execute started_at finished_at o).output ≡ false)
unfolding execute build_run_output
execute_final started_at finished_at (refused message) dated = (inr refl, refl)
execute_final started_at finished_at (finished f) dated =
    let (status, rest) = execute_verdict started_at finished_at f in (ground arith, ground arith)

final_params :
    (a : ActiveRun) (r : ExecutionResult) (at : Time)
    → (r.status ≡ RunStatus.succeeded) ⊎ (r.status ≡ RunStatus.failed)
    → ((finish_params a r at).status ≡ RunStatus.succeeded)
      ⊎ ((finish_params a r at).status ≡ RunStatus.failed)
      ⊎ ((finish_params a r at).status ≡ RunStatus.canceled)
final_params a r at h = ground arith

-- what is stored of a run whose executor returned the moment that its command ended
abbrev pub end_params : ActiveRun → Time → Time → Outcome → FinishRunParams
end_params a started_at finished_at o =
    finish_params a (execute started_at finished_at o) finished_at

-- the output that is shown at last: the first 64 KiB of each stream, or what was there if both are empty
abbrev pub shown_streams : List ℕ → List ℕ → Time → Option RunOutput → Option RunOutput
shown_streams out errors at old =
    if length out == 0 && length errors == 0
    then old
    else some (record {
      stdout = take (64 * 1024) out;
      stderr = take (64 * 1024) errors;
      stdout_truncated = ltb (64 * 1024) (length out);
      stderr_truncated = ltb (64 * 1024) (length errors);
      updated_at = whole_seconds at;
    })

abbrev pub shown_capture : Outcome → Time → Option RunOutput → Option RunOutput
shown_capture (refused message) at old = old
shown_capture (finished f) at old =
    shown_streams (stream_bytes f.stdout) (stream_bytes f.stderr) at old

-- the status of a run that was not canceled, and of one that was
abbrev pub shown_status : CancelReason → Outcome → RunStatus
shown_status CancelReason.unset (refused message) = RunStatus.failed
shown_status CancelReason.unset (finished f) =
    if went_well f then RunStatus.succeeded else RunStatus.failed
shown_status _ o = RunStatus.canceled

-- nothing is kept exactly of two empty streams
kept_nothing :
    (limit : ℕ) (out errors : List ℕ)
    → limit ≢ 0
    → (length (take limit out) == 0
        && length (take limit errors) == 0
        && not (ltb limit (length out))
        && not (ltb limit (length errors)))
      ≡ (length out == 0 && length errors == 0)
kept_nothing limit out errors h = ground (arith, length-take limit out, length-take limit errors)

shown_when :
    (b : Bool) (o : RunOutput) (old : Option RunOutput)
    → shown_output (if b then none else some o) old
      ≡ (if b then old else some (record o { updated_at = whole_seconds o.updated_at }))
shown_when true o old = refl
shown_when false o old = refl

build_run_output-shown :
    (f : Finished) (at : Time) (old : Option RunOutput)
    → shown_output
        (build_run_output (read_captured_stream f.stdout) (read_captured_stream f.stderr) at)
        old
      ≡ shown_streams (stream_bytes f.stdout) (stream_bytes f.stderr) at old
unfolding build_run_output
build_run_output-shown f at old =
    let out = read_captured_stream-Captures f.stdout in
    let errors = read_captured_stream-Captures f.stderr in
    rw
      (
        out.text,
        out.truncated,
        errors.text,
        errors.truncated,
        kept_nothing (64 * 1024) (stream_bytes f.stdout) (stream_bytes f.stderr) (ground arith),
        shown_when,
      )
      refl

-- what the process or Wait reported, if it is not negative
abbrev reported_code : Finished → Option ℤ
reported_code f = exit_code_from_command f.state f.waited

-- the exit code that is shown: the one that was reported, or zero if none was and all went well
abbrev pub shown_code : Outcome → Option ℤ
shown_code (refused message) = none
shown_code (finished f) =
    if went_well f && is_none (reported_code f) then some (pos 0) else reported_code f

-- the message that is shown: how the run was canceled, or else what Execute answered
abbrev pub shown_message : CancelReason → Option String → Option String
shown_message CancelReason.unset message = message
shown_message CancelReason.replace message = some "canceled by replacement"
shown_message CancelReason.shutdown message = some "canceled by shutdown"

shown_message_lem :
    (reason : CancelReason) (message : Option String)
    → final_message reason message ≡ shown_message reason message
shown_message_lem CancelReason.unset message = refl
shown_message_lem CancelReason.replace message = refl
shown_message_lem CancelReason.shutdown message = refl

execute-shown_code :
    (started_at finished_at : Time) (o : Outcome)
    → (execute started_at finished_at o).exit_code ≡ shown_code o
unfolding execute verdict
execute-shown_code started_at finished_at (refused message) = refl
execute-shown_code started_at finished_at (finished f) =
    let out = stream_error f.stdout in let errors = stream_error f.stderr in ground arith

shown_status_lem :
    (a : ActiveRun) (started_at finished_at : Time) (o : Outcome)
    → (end_params a started_at finished_at o).status ≡ shown_status a.reason o
unfolding execute
shown_status_lem a started_at finished_at (refused message) = ground arith
shown_status_lem a started_at finished_at (finished f) =
    let (status, rest) = execute_verdict started_at finished_at f in ground arith

shown_capture_lem :
    (started_at finished_at : Time) (o : Outcome) (old : Option RunOutput)
    → shown_output (execute started_at finished_at o).output old ≡ shown_capture o finished_at old
unfolding execute
shown_capture_lem started_at finished_at (refused message) old = refl
shown_capture_lem started_at finished_at (finished f) old = build_run_output-shown f finished_at old

-- A run that Get reads is shown to have ended after MarkFinished has stored what its executor returned, whatever
-- its command came to, a refused start included: succeeded exactly if nothing went wrong and it was not
-- canceled, failed if something did, canceled if it was; with the exit code of the command, with the first
-- 64 KiB of each of its streams and whether there was more, and with no runner. It keeps the output it had if
-- the command printed nothing. The executor must have returned at a time that is set, and the engine must refuse no
-- statement.
pub execution_stored :
    (a : ActiveRun) (started_at finished_at : Time) (o : Outcome) (before : Run) (db : Db)
    → is_zero_time finished_at ≡ false
    → (get_run_with_output a.run_id db).0 ≡ ok before
    → ((n : ℕ) → db.refuses n ≡ false)
    → ((mark_finished (end_params a started_at finished_at o) db).0 ≡ ok tt)
      × ((get_run_with_output a.run_id
            (mark_finished (end_params a started_at finished_at o) db).1).0
          ≡ ok (record before {
            status = shown_status a.reason o;
            finished_at = some (whole_seconds finished_at);
            exit_code = shown_code o;
            error_message = shown_message a.reason (execute started_at finished_at o).error_message;
            runner_id = none;
            output = shown_capture o finished_at before.output;
          }))
execution_stored a started_at finished_at o before db dated h never =
    let result = execute started_at finished_at o in
    let p = end_params a started_at finished_at o in
    let (status, output) = execute_final started_at finished_at o dated in
    let found = get_run_with_output_found a.run_id db h in
    let (done, engine) =
      mark_finished_succeeds p db (final_params a result finished_at status) output found never in
    let read =
      (mark_finished-get_run_with_output p before (suc a.run_id) db h
        (ap (λ r. (r, (mark_finished p db).1)) done)
        (rw engine (never (mark_finished p db).1.statements)) (ground arith)).0 in
    (
      done,
      rw
          (
            ← shown_status_lem a started_at finished_at o,
            ← execute-shown_code started_at finished_at o,
            ← shown_capture_lem started_at finished_at o before.output,
            ← shown_message_lem a.reason result.error_message,
          )
          read,
    )
