-- ===== src/Domain/OnFinish/Normal.antt =====
-- Normal configurations: what NormalizeOnFinishConfig returns, and what it leaves as it is.
use text.Mathlib.Text.{◌==◌ as str_eq}
use jobsd.Common.{ℕ, String, true, false, ◌||◌, Option, none, some, ◌≡◌, refl, arith}
use jobsd.Common.Int.{is_nonpositive}
use jobsd.Common.Text.{is_blank}
use jobsd.Result.{ok}
use jobsd.Domain.{OnFinishConfig, OnFinishSinkType, CommandSinkConfig, HttpSinkConfig}
use jobsd.Env.{Env, JsonRoundTrip}
use jobsd.Domain.OnFinish.{
  is_loopback_host, check_parsed_url, validate_loopback_url, or_default, default_http_timeout_ms,
  default_command_timeout_ms, normalize_on_finish_config, parse_on_finish_config_json,
  marshal_on_finish_config_json,
}

-- An http or https URL of the host itself.
abbrev pub IsLoopback : Option (String × String) → Type 0
IsLoopback none = ⊥
IsLoopback (some (scheme, host)) =
    ((str_eq scheme "http" || str_eq scheme "https") ≡ true) × (is_loopback_host host ≡ true)

-- The sink that the type names is there, complete, and is the only one.
abbrev pub HasOneSink :
    Env → OnFinishSinkType → Option CommandSinkConfig → Option HttpSinkConfig → Type 0
HasOneSink env OnFinishSinkType.command (some sink) none = is_blank sink.program ≡ false
HasOneSink env OnFinishSinkType.http none (some sink) =
    (is_blank sink.url ≡ false) × IsLoopback (env.parse_url sink.url)
HasOneSink env _ _ _ = ⊥

pub record IsNormal (env : Env) (c : OnFinishConfig) : Type 0 where
  pub sink : HasOneSink env c.sink_type c.command_sink c.http_sink
  pub timeout : is_nonpositive c.timeout_ms ≡ false
  pub retries : is_nonpositive c.retry_count ≡ false
  pub backoff : is_nonpositive c.retry_backoff_ms ≡ false

-- the default timeout of a sink
abbrev pub default_timeout : OnFinishSinkType → ℕ
default_timeout OnFinishSinkType.http = default_http_timeout_ms
default_timeout _ = default_command_timeout_ms

module _ (env : Env) where
  url_checked :
      (parsed : Option (String × String)) → check_parsed_url parsed ≡ ok tt → IsLoopback parsed
  unfolding check_parsed_url
  url_checked none h = ground arith
  url_checked (some (scheme, host)) h = ground arith

  url_accepted :
      (parsed : Option (String × String)) → IsLoopback parsed → check_parsed_url parsed ≡ ok tt
  unfolding check_parsed_url
  url_accepted none h = absurd h
  url_accepted (some (scheme, host)) h = ground arith

  -- A configuration that is accepted comes back normal: its one sink is complete, an HTTP sink goes
  -- to the host itself, and the timeout, the retries and the backoff are positive.
  pub normalize_on_finish_config-IsNormal :
      (c : OnFinishConfig) {d : OnFinishConfig}
      → normalize_on_finish_config env c ≡ ok d
      → IsNormal env d
  unfolding normalize_on_finish_config validate_loopback_url
  normalize_on_finish_config-IsNormal c h = ground arith

  -- A normal configuration is accepted as it is.
  pub normalize_on_finish_config_of_IsNormal :
      (c : OnFinishConfig) → IsNormal env c → normalize_on_finish_config env c ≡ ok c
  unfolding normalize_on_finish_config validate_loopback_url check_parsed_url
  normalize_on_finish_config_of_IsNormal c h = ground arith

  -- An accepted configuration keeps its type and its sinks, and every setting that is not zero; a
  -- setting that is zero becomes its default, the retries too.
  pub normalize_on_finish_config_keeps :
      (c : OnFinishConfig) {d : OnFinishConfig}
      → normalize_on_finish_config env c ≡ ok d
      → (d.sink_type ≡ c.sink_type)
        × (d.command_sink ≡ c.command_sink)
        × (d.http_sink ≡ c.http_sink)
        × (d.timeout_ms ≡ or_default c.timeout_ms (default_timeout c.sink_type))
        × (d.retry_count ≡ or_default c.retry_count 1)
        × (d.retry_backoff_ms ≡ or_default c.retry_backoff_ms 1000)
  unfolding normalize_on_finish_config
  normalize_on_finish_config_keeps c h = ground arith

  -- If encoding/json reads back what it writes for the normal form of a configuration, then the text
  -- that the configuration is stored as is parsed to that normal form.
  pub parse-marshal :
      (c : OnFinishConfig) {d : OnFinishConfig}
      → normalize_on_finish_config env c ≡ ok d
      → JsonRoundTrip env d
      → (marshal_on_finish_config_json env (some c) ≡ ok (some (env.marshal d)))
        × (parse_on_finish_config_json env (env.marshal d) ≡ ok d)
  unfolding marshal_on_finish_config_json parse_on_finish_config_json
  parse-marshal c {d} h json = (
    rw h refl,
    rw (json.visible, json.read_back)
        (normalize_on_finish_config_of_IsNormal d (normalize_on_finish_config-IsNormal c h)),
  )

  -- A hook or none, its normal form, and that encoding/json reads the normal form back.
  abbrev pub HookReadsBack : Option OnFinishConfig → Option OnFinishConfig → Type 0
  HookReadsBack none none = Unit
  HookReadsBack (some c) (some d) = (normalize_on_finish_config env c ≡ ok d) × JsonRoundTrip env d
  HookReadsBack _ _ = ⊥

  -- the stored text of a hook or of none
  abbrev pub ParsesTo : Option String → Option OnFinishConfig → Type 0
  ParsesTo none none = Unit
  ParsesTo (some text) (some d) = parse_on_finish_config_json env text ≡ ok d
  ParsesTo _ _ = ⊥

  pub marshal-ParsesTo :
      (c n : Option OnFinishConfig)
      → HookReadsBack c n
      → (json : Option String) × (marshal_on_finish_config_json env c ≡ ok json) × ParsesTo json n
  marshal-ParsesTo none none h = (none, unfold marshal_on_finish_config_json in refl, tt)
  marshal-ParsesTo none (some d) h = absurd h
  marshal-ParsesTo (some c) none h = absurd h
  marshal-ParsesTo (some c) (some d) h =
      let (written, parsed) = parse-marshal c {d = d} h.0 h.1 in
      (some (env.marshal d), written, parsed)
