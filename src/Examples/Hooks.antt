-- ===== src/Examples/Hooks.antt =====
-- The configuration and the delivery of hooks, and the capture of output.
use jobsd.Common.{◌+◌, arith, ◌≤◌, true, none, some, List, [], ◌∷◌, ◌≡◌, refl, length}
use jobsd.Common.Text.{is_blank}
use jobsd.Result.{ok}
use jobsd.Domain.OnFinish.{
  or_default, normalize_on_finish_config, parse_on_finish_config_json,
  marshal_on_finish_config_json,
}
use jobsd.Domain.OnFinish.Normal.{
  IsNormal, default_timeout, normalize_on_finish_config-IsNormal, normalize_on_finish_config_keeps,
  parse-marshal,
}
use jobsd.Daemon.Executor.{Chunk, read_captured_stream}
use jobsd.Daemon.Executor.Capture.{stream_bytes, Captures, read_captured_stream-Captures}
use jobsd.Daemon.Dispatcher.{
  CommandReply, HttpReply, Hooks, HookAttemptResult, resolve_config, notify,
}
use jobsd.Daemon.Dispatcher.Attempts.{IsRunOfTries, notify_tries}
use jobsd.Sqlite.Metadata.{get_metadata}
use jobsd.Daemon.Dispatcher.Stored.{notify_stored-runs}
use jobsd.Examples.{
  plain_codec, normal_hook, short_hook, minute_env, backup_job, waiting_run, waiting_row, small_db,
}

normalize_on_finish_config-IsNormal_example : IsNormal minute_env normal_hook
unfolding normalize_on_finish_config is_blank
normalize_on_finish_config-IsNormal_example =
    normalize_on_finish_config-IsNormal minute_env short_hook {d = normal_hook} refl

normal_hook-IsNormal : IsNormal minute_env normal_hook
unfolding is_blank
normal_hook-IsNormal = record { sink = refl; timeout = refl; retries = refl; backoff = refl }

normalize_on_finish_config_keeps_example :
    (normal_hook.sink_type ≡ short_hook.sink_type)
    × (normal_hook.command_sink ≡ short_hook.command_sink)
    × (normal_hook.http_sink ≡ short_hook.http_sink)
    × (normal_hook.timeout_ms
        ≡ or_default short_hook.timeout_ms (default_timeout short_hook.sink_type))
    × (normal_hook.retry_count ≡ or_default short_hook.retry_count 1)
    × (normal_hook.retry_backoff_ms ≡ or_default short_hook.retry_backoff_ms 1000)
unfolding normalize_on_finish_config is_blank
normalize_on_finish_config_keeps_example =
    normalize_on_finish_config_keeps minute_env short_hook {d = normal_hook} refl

parse-marshal_example :
    (marshal_on_finish_config_json minute_env (some short_hook) ≡ ok (some "{}"))
    × (parse_on_finish_config_json minute_env "{}" ≡ ok normal_hook)
unfolding normalize_on_finish_config is_blank
parse-marshal_example =
    parse-marshal minute_env short_hook {d = normal_hook} refl
      (record { read_back = refl; visible = refl })

-- a command that fails at every attempt, and can be tried again
abbrev pub failing : Hooks
failing = record {
  now = 140_000_000_000;
  attempt_started = λ n. 140_000_000_000 + n;
  attempt_finished = λ n. 140_000_000_001 + n;
  run_command = λ n timeout sink payload. CommandReply.failed true "signal: killed";
  post = λ n timeout sink payload. HttpReply.response 500;
}

notify_tries_example :
    (rs : List HookAttemptResult) × ((notify minute_env none failing "home" backup_job waiting_run
        small_db).0
      ≡ ok rs)
    × (1 ≤ length rs)
    × (length rs ≤ 3)
    × IsRunOfTries 3 rs
unfolding resolve_config normalize_on_finish_config is_blank
notify_tries_example =
    notify_tries minute_env none failing "home" backup_job waiting_run small_db {c = normal_hook}
      {db' = small_db} refl (omega arith)

notify_stored-runs_example :
    (notify minute_env
      (some (get_metadata minute_env plain_codec))
      failing
      "home"
      backup_job
      waiting_run
      small_db).1.tables.runs
    ≡ waiting_row ∷ []
notify_stored-runs_example =
    notify_stored-runs minute_env plain_codec failing "home" backup_job waiting_run small_db

abbrev pub two_reads : List Chunk
two_reads = Chunk.more (104 ∷ 105 ∷ []) ∷ Chunk.eof (10 ∷ []) ∷ []

read_captured_stream-Captures_example :
    Captures (stream_bytes two_reads) (read_captured_stream two_reads)
read_captured_stream-Captures_example = read_captured_stream-Captures two_reads
