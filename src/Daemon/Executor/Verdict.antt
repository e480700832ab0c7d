-- ===== src/Daemon/Executor/Verdict.antt =====
-- What ShellExecutor.Execute makes of a command that has run.
use jobsd.Common.{
  Bool, true, false, not, ◌&&◌, none, List, [], ◌∷◌, ℕ, if◌then◌else◌, is_none, ◌≡◌, ◌≢◌, refl,
  arith,
}
use jobsd.Domain.{Time, RunStatus}
use jobsd.Daemon.Executor.{
  Chunk, CapturedStream, WaitError, Finished, capture_bytes, read_chunks, read_captured_stream,
  empty_stream, verdict, execute, finished, more, eof, failed, success,
}

-- whether a read of the stream fails before its end
abbrev pub read_fails : List Chunk → Bool
read_fails [] = false
read_fails (more bytes ∷ chunks) = read_fails chunks
read_fails (eof bytes ∷ chunks) = false
read_fails (failed bytes message ∷ chunks) = true

abbrev pub exited_well : WaitError → Bool
exited_well success = true
exited_well _ = false

-- the context is not done, both streams were read to their ends, and Wait reported no error
abbrev pub went_well : Finished → Bool
went_well f =
    is_none f.context_error
    && not (read_fails f.stdout)
    && not (read_fails f.stderr)
    && exited_well f.waited

capture_bytes_error :
    (bytes : List ℕ) (c : CapturedStream) → (capture_bytes bytes c).read_error ≡ c.read_error
unfolding capture_bytes
capture_bytes_error bytes c = ground arith

read_chunks_error :
    (chunks : List Chunk) (c : CapturedStream)
    → c.read_error ≡ none
    → is_none (read_chunks chunks c).read_error ≡ not (read_fails chunks)
unfolding read_chunks
read_chunks_error [] c h = rw h refl
read_chunks_error (more bytes ∷ chunks) c h =
    let same = capture_bytes_error bytes c in
    read_chunks_error chunks (capture_bytes bytes c) (rw same h)
read_chunks_error (eof bytes ∷ chunks) c h =
    let same = capture_bytes_error bytes c in rw (same, h) refl
read_chunks_error (failed bytes message ∷ chunks) c h = refl

pub stream_error :
    (chunks : List Chunk)
    → is_none (read_captured_stream chunks).read_error ≡ not (read_fails chunks)
unfolding read_captured_stream
stream_error chunks = read_chunks_error chunks empty_stream refl

-- A command that has run is stored as succeeded exactly if its context was not done, both of its streams were
-- read to their ends and Wait reported no error; it has an exit code and no message then, and is stored as
-- failed otherwise.
pub execute_verdict :
    (started_at finished_at : Time) (f : Finished)
    → ((execute started_at finished_at (finished f)).status
        ≡ (if went_well f then RunStatus.succeeded else RunStatus.failed))
      × (went_well f ≡ true
          → ((execute started_at finished_at (finished f)).exit_code ≢ none)
            × ((execute started_at finished_at (finished f)).error_message ≡ none))
unfolding execute verdict
execute_verdict started_at finished_at f =
    let out = stream_error f.stdout in
    let errors = stream_error f.stderr in (ground arith, λ well. (λ e. ground arith, ground arith))
