-- ===== src/Domain/OnFinish.antt =====
-- internal/domain/on_finish.go: parsing, checking and completing a hook's configuration.
pub mod Normal
use text.Mathlib.Text.{◌==◌ as str_eq}
use jobsd.Common.{
  ℕ, zero, suc, String, Bool, true, false, not, ◌||◌, Option, none, some, ℤ, pos, is_none,
  if◌then◌else◌,
}
use jobsd.Common.Int.{is_negative, is_zero}
use jobsd.Common.Text.{is_blank}
use jobsd.Result.{Error, invalid, Result, ok, err, ◌>>=◌, ◌>>◌, refuse_if}
use jobsd.Domain.{
  OnFinishConfig, OnFinishSinkType, CommandSinkConfig, HttpSinkConfig, sink_type_is_valid,
}
use jobsd.Env.{Env}

abbrev pub default_command_timeout_ms : ℕ
default_command_timeout_ms = 5000

abbrev pub default_http_timeout_ms : ℕ
default_http_timeout_ms = 3000

abbrev pub default_retry_count : ℕ
default_retry_count = 1

abbrev pub default_retry_backoff_ms : ℕ
default_retry_backoff_ms = 1000

abbrev pub default_preview_max_bytes : ℕ
default_preview_max_bytes = 2048

-- `if field == 0 { field = default }`
abbrev pub or_default : ℤ → ℕ → ℤ
or_default z d = if is_zero z then pos d else z

unfoldable pub is_loopback_host : String → Bool
is_loopback_host host = str_eq host "127.0.0.1" || str_eq host "localhost"

check_parsed_url : Option (String × String) → Result (Unit {0})
unfolding is_loopback_host
check_parsed_url none = err (invalid "parse http.url")
check_parsed_url (some (scheme, host)) = do
  refuse_if (not (str_eq scheme "http" || str_eq scheme "https"))
      (invalid "http.url must use http or https")
  refuse_if (not (is_loopback_host host)) (invalid "http.url host must be loopback")

module _ (env : Env) where
  unfoldable pub validate_loopback_url : String → Result (Unit {0})
  unfolding check_parsed_url
  validate_loopback_url raw = check_parsed_url (env.parse_url raw)

  check_command : Option CommandSinkConfig → Option HttpSinkConfig → Result (Unit {0})
  check_command none other = err (invalid "command sink config is required")
  check_command (some sink) other = do
    refuse_if (is_blank sink.program) (invalid "command.program must not be empty")
    refuse_if (not (is_none other)) (invalid "http sink config must be empty for command type")

  check_http : Option HttpSinkConfig → Option CommandSinkConfig → Result (Unit {0})
  check_http none other = err (invalid "http sink config is required")
  check_http (some sink) other = do
    refuse_if (is_blank sink.url) (invalid "http.url must not be empty")
    validate_loopback_url sink.url
    refuse_if (not (is_none other)) (invalid "command sink config must be empty for http type")

  -- the `switch` on the type; the type is valid where it stands
  normalize_sink : OnFinishSinkType → OnFinishConfig → Result OnFinishConfig
  unfolding check_command check_http
  normalize_sink OnFinishSinkType.command c = do
    check_command c.command_sink c.http_sink
    ok (record c { timeout_ms = or_default c.timeout_ms default_command_timeout_ms })
  normalize_sink OnFinishSinkType.http c = do
    check_http c.http_sink c.command_sink
    ok (record c { timeout_ms = or_default c.timeout_ms default_http_timeout_ms })
  normalize_sink (OnFinishSinkType.unknown s) c = ok c

  unfoldable pub normalize_on_finish_config : OnFinishConfig → Result OnFinishConfig
  unfolding normalize_sink
  normalize_on_finish_config config = do
    refuse_if (not (sink_type_is_valid config.sink_type)) (invalid "invalid on_finish type")
    refuse_if (is_negative config.timeout_ms) (invalid "timeout_ms must be >= 0")
    refuse_if (is_negative config.retry_count) (invalid "retry_count must be >= 0")
    refuse_if (is_negative config.retry_backoff_ms) (invalid "retry_backoff_ms must be >= 0")
    c ← normalize_sink config.sink_type config
    ok (record c {
      retry_count = or_default c.retry_count default_retry_count;
      retry_backoff_ms = or_default c.retry_backoff_ms default_retry_backoff_ms;
    })

  decoded : Option OnFinishConfig → Result OnFinishConfig
  decoded none = err (invalid "parse on_finish config json")
  decoded (some config) = ok config

  unfoldable pub parse_on_finish_config_json : String → Result OnFinishConfig
  unfolding decoded
  parse_on_finish_config_json raw = do
    refuse_if (is_blank raw) (invalid "on_finish config must not be empty")
    config ← decoded (env.unmarshal raw)
    normalize_on_finish_config config

  unfoldable pub marshal_on_finish_config_json : Option OnFinishConfig → Result (Option String)
  marshal_on_finish_config_json none = ok none
  marshal_on_finish_config_json (some config) = do
    normalized ← normalize_on_finish_config config
    ok (some (env.marshal normalized))
