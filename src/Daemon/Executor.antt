-- ===== src/Daemon/Executor.antt =====
-- internal/daemon/executor.go: capturing a stream, and the result of a command.
pub mod Capture
pub mod Verdict
pub mod Stored
use Prim.Native.String.{◌++◌ as append_text}
use jobsd.Common.{
  ℕ, zero, suc, ◌-◌, ◌*◌, ltb, ◌==◌, Bool, true, false, not, ◌&&◌, Option, none, some, List, [],
  ◌∷◌, ◌++◌, String, ℤ, pos, if◌then◌else◌, is_none, length, take,
}
use jobsd.Common.Int.{is_negative}
use jobsd.Domain.{Time, RunOutput, RunStatus}
use jobsd.Daemon.Completion.{ExecutionResult}

abbrev pub max_captured_output_bytes : ℕ
max_captured_output_bytes = 64 * 1024

-- What a Read gives: bytes, and that the stream goes on, has ended or has failed.
pub data Chunk : Type 0 where
  more : List ℕ → Chunk
  eof : List ℕ → Chunk
  failed : List ℕ → String → Chunk

-- capturedStream, with the buffer that its text is made of
pub record CapturedStream : Type 0 where
  pub text : List ℕ
  pub truncated : Bool
  pub read_error : Option String
  pub had_output : Bool

abbrev pub empty_stream : CapturedStream
empty_stream = record { text = []; truncated = false; read_error = none; had_output = false }

-- the body of `if n > 0`: `maxCapturedOutputBytes - buffer.Len()` is not negative, as the buffer
-- never passes the limit
unfoldable pub capture_bytes : List ℕ → CapturedStream → CapturedStream
capture_bytes bytes c =
    let remaining = max_captured_output_bytes - length c.text in
    if length bytes == 0
    then c
    else if remaining == 0
    then record c { had_output = true; truncated = true }
    else if ltb remaining (length bytes)
    then record c { had_output = true; text = c.text ++ take remaining bytes; truncated = true }
    else record c { had_output = true; text = c.text ++ bytes }

-- The loop of readCapturedStream over what the reads give. A stream that is still open when the
-- list ends has given nothing more.
unfoldable pub read_chunks : List Chunk → CapturedStream → CapturedStream
unfolding capture_bytes
read_chunks [] c = c
read_chunks (more bytes ∷ chunks) c = read_chunks chunks (capture_bytes bytes c)
read_chunks (eof bytes ∷ chunks) c = capture_bytes bytes c
read_chunks (failed bytes message ∷ chunks) c = record (capture_bytes bytes c) {
  read_error = some message;
}

unfoldable pub read_captured_stream : List Chunk → CapturedStream
unfolding read_chunks
read_captured_stream chunks = read_chunks chunks empty_stream

unfoldable pub build_run_output : CapturedStream → CapturedStream → Time → Option RunOutput
build_run_output stdout stderr at =
    if length stdout.text == 0
      && length stderr.text == 0
      && not stdout.truncated
      && not stderr.truncated
    then none
    else some (record {
      stdout = stdout.text;
      stderr = stderr.text;
      stdout_truncated = stdout.truncated;
      stderr_truncated = stderr.truncated;
      updated_at = at;
    })

-- cmd.Wait: no error, an *exec.ExitError with its code, or another error
pub data WaitError : Type 0 where
  success : WaitError
  exit_error : ℤ → WaitError
  other : String → WaitError

abbrev pub known_code : ℤ → Option ℤ
known_code code = if is_negative code then none else some code

abbrev pub code_of_error : WaitError → Option ℤ
code_of_error (exit_error code) = known_code code
code_of_error _ = none

-- `state` is cmd.ProcessState.ExitCode(), if there is a process state
unfoldable pub exit_code_from_command : Option ℤ → WaitError → Option ℤ
exit_code_from_command none waited = code_of_error waited
exit_code_from_command (some code) waited =
    if is_negative code then code_of_error waited else some code

-- What happened to a command. `refused` is an error of StdoutPipe, StderrPipe or Start, with the
-- message that the code makes of it.
pub record Finished : Type 0 where
  pub context_error : Option String
  pub stdout : List Chunk
  pub stderr : List Chunk
  pub state : Option ℤ
  pub waited : WaitError

pub data Outcome : Type 0 where
  refused : String → Outcome
  finished : Finished → Outcome

-- the `switch` of Execute: the status, the exit code and the message
abbrev pub Verdict : Type 0
Verdict = RunStatus × Option ℤ × Option String

abbrev pub verdict_of_wait : Option ℤ → WaitError → Verdict
verdict_of_wait code success =
    (RunStatus.succeeded, if is_none code then some (pos 0) else code, none)
verdict_of_wait code (exit_error n) = (RunStatus.failed, code, none)
verdict_of_wait code (other message) =
    (RunStatus.failed, code, some (append_text "wait command: " message))

abbrev pub or_else : Option String → String → Option ℤ → Verdict → Verdict
or_else none prefix code v = v
or_else (some message) prefix code v = (RunStatus.failed, code, some (append_text prefix message))

unfoldable pub verdict :
    Option String → CapturedStream → CapturedStream → Option ℤ → WaitError → Verdict
unfolding exit_code_from_command
verdict context_error stdout stderr state waited =
    let code = exit_code_from_command state waited in
    or_else context_error "" code (
      or_else stdout.read_error "stdout read: " code
        (or_else stderr.read_error "stderr read: " code (verdict_of_wait code waited)))

unfoldable pub execute : Time → Time → Outcome → ExecutionResult
unfolding verdict read_captured_stream build_run_output
execute started_at finished_at (refused message) = record {
  status = RunStatus.failed;
  started_at = started_at;
  finished_at = finished_at;
  exit_code = none;
  error_message = some message;
  output = none;
}
execute started_at finished_at (finished f) =
    let stdout = read_captured_stream f.stdout in
    let stderr = read_captured_stream f.stderr in
    let v = verdict f.context_error stdout stderr f.state f.waited in
    record {
      status = v.0;
      started_at = started_at;
      finished_at = finished_at;
      exit_code = v.1;
      error_message = v.2;
      output = build_run_output stdout stderr finished_at;
    }
