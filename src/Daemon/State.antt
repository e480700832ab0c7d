-- ===== src/Daemon/State.antt =====
-- internal/daemon/state.go: the state file of a running scheduler. Files are a parameter by what they
-- answer: `fails n` says that the n-th call of package os fails.
pub mod File
use text.Mathlib.Text.{◌==◌ as str_eq}
use jobsd.Common.{
  ℕ, zero, suc, ltb, Bool, true, false, not, ◌&&◌, ◌||◌, Option, none, some, String, ℤ,
  if◌then◌else◌,
}
use jobsd.Common.Int.{is_nonpositive}
use jobsd.Result.{
  Error, system, state_not_found, state_corrupt, invalid, Result, ok, err, hang, ◌>>=◌, ◌>>◌,
  refuse_if,
}
use jobsd.Domain.{Time, SchedulerState, is_zero_time}
use jobsd.Env.{Codec}
use jobsd.Sqlite.{format_time}

-- schedulerStateJSON
pub record SchedulerStateJson : Type 0 where
  pub instance_name : String
  pub pid : ℤ
  pub port : ℤ
  pub token : String
  pub db_path : String
  pub started_at : String
  pub version : String

-- json.MarshalIndent with the line feed that follows, and json.Unmarshal, at schedulerStateJSON
pub record StateJson : Type 0 where
  pub marshal : SchedulerStateJson → String
  pub unmarshal : String → Option SchedulerStateJson

unfoldable pub validate_scheduler_state : SchedulerState → Result (Unit {0})
validate_scheduler_state state = do
  refuse_if (str_eq state.instance_name "") (invalid "state instance is required")
  refuse_if (is_nonpositive state.pid) (invalid "state pid must be positive")
  refuse_if (is_nonpositive state.port) (invalid "state port must be positive")
  refuse_if (str_eq state.token "") (invalid "state token is required")
  refuse_if (str_eq state.db_path "") (invalid "state db path is required")
  refuse_if (str_eq state.version "") (invalid "state version is required")
  refuse_if (is_zero_time state.started_at) (invalid "state started at is required")

abbrev pub read_started_at : Option Time → Result Time
read_started_at none = err state_corrupt
read_started_at (some t) = ok t

module _ (codec : Codec) where
  abbrev pub raw_of : SchedulerState → SchedulerStateJson
  raw_of state = record {
    instance_name = state.instance_name;
    pid = state.pid;
    port = state.port;
    token = state.token;
    db_path = state.db_path;
    started_at = codec.write_time (format_time state.started_at);
    version = state.version;
  }

  unfoldable pub decode_scheduler_state : SchedulerStateJson → Result SchedulerState
  decode_scheduler_state raw = do
    refuse_if (str_eq raw.instance_name "") state_corrupt
    refuse_if (is_nonpositive raw.pid) state_corrupt
    refuse_if (is_nonpositive raw.port) state_corrupt
    refuse_if (str_eq raw.token "") state_corrupt
    refuse_if (str_eq raw.db_path "") state_corrupt
    refuse_if (str_eq raw.version "") state_corrupt
    refuse_if (str_eq raw.started_at "") state_corrupt
    started_at ← read_started_at (codec.read_time raw.started_at)
    ok (record {
      instance_name = raw.instance_name;
      pid = raw.pid;
      port = raw.port;
      token = raw.token;
      db_path = raw.db_path;
      started_at = started_at;
      version = raw.version;
    })

-- The state file and the temporary file beside it, each by its content.
pub record Files : Type 0 where
  pub state_file : Option String
  pub temp_file : Option String
  pub fails : ℕ → Bool
  pub calls : ℕ

abbrev pub called : Files → Files
called fs = record fs { calls = suc fs.calls }

-- `defer os.Remove(tempPath)`: a failure is dropped
abbrev pub removed_temp : Files → Files
removed_temp fs = if fs.fails fs.calls then called fs else record (called fs) { temp_file = none }

-- the calls between CreateTemp and the end: Chmod, Write, Close, Rename. A Write that fails may
-- have written a part, and a Rename that fails changes no file.
unfoldable pub fill_temp : String → String → Files → Result (Unit {0}) × Files
fill_temp payload part fs =
    let chmod = called fs in
    let write = called chmod in
    let close = called write in
    if fs.fails fs.calls
    then (err system, called chmod)
    else if chmod.fails chmod.calls
    then (err system, record (called write) { temp_file = some part })
    else if write.fails write.calls
    then (err system, record close { temp_file = some payload })
    else if close.fails close.calls
    then (err system, record (called close) { temp_file = some payload })
    else (ok tt, record (called close) { state_file = some payload; temp_file = none })

abbrev pub and_remove : Result (Unit {0}) × Files → Result (Unit {0}) × Files
and_remove out = (out.0, removed_temp out.1)

-- what follows marshalSchedulerState: MkdirAll, CreateTemp and the rest
unfoldable pub store_payload : String → String → Files → Result (Unit {0}) × Files
unfolding fill_temp
store_payload payload part fs =
    let create = called fs in
    if fs.fails fs.calls
    then (err system, create)
    else if create.fails create.calls
    then (err system, called create)
    else and_remove (fill_temp payload part (record (called create) { temp_file = some "" }))

abbrev pub store_marshaled : Result String → String → Files → Result (Unit {0}) × Files
store_marshaled (ok payload) part fs = store_payload payload part fs
store_marshaled (err e) part fs = (err e, fs)
store_marshaled hang part fs = (hang, fs)

module _ (codec : Codec) (json : StateJson) where
  unfoldable pub marshal_scheduler_state : SchedulerState → Result String
  unfolding validate_scheduler_state
  marshal_scheduler_state state = do
    validate_scheduler_state state
    ok (json.marshal (raw_of codec state))

  -- WriteState
  unfoldable pub write_state : SchedulerState → String → Files → Result (Unit {0}) × Files
  unfolding marshal_scheduler_state store_payload
  write_state state part fs = store_marshaled (marshal_scheduler_state state) part fs

  unfoldable pub decode_payload : Option SchedulerStateJson → Result SchedulerState
  decode_payload none = err state_corrupt
  decode_payload (some raw) = decode_scheduler_state codec raw

  unfoldable pub read_payload : Option String → Result SchedulerState
  unfolding decode_payload
  read_payload none = err state_not_found
  read_payload (some payload) = decode_payload (json.unmarshal payload)

  -- ReadState
  unfoldable pub read_state : Files → Result SchedulerState × Files
  unfolding read_payload
  read_state fs =
      if fs.fails fs.calls then (err system, called fs) else (read_payload fs.state_file, called fs)

-- RemoveState. `retries` says whether shouldRetryStateRemove allows another round, which it does on
-- Windows only; `rounds` bounds the rounds before the deadline.
unfoldable pub remove_state : ℕ → Bool → Files → Result (Unit {0}) × Files
remove_state zero retries fs =
    if fs.fails fs.calls
    then (err system, called fs)
    else (ok tt, record (called fs) { state_file = none })
remove_state (suc rounds) retries fs =
    let again = remove_state rounds retries (called fs) in
    if fs.fails fs.calls
    then (if retries then again else (err system, called fs))
    else (ok tt, record (called fs) { state_file = none })
