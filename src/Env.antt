-- ===== src/Env.antt =====
-- What the program calls and does not implement: the URL and JSON packages of Go, the parsers of
-- durations and cron expressions (package time, github.com/robfig/cron), and the time zones.
use text.Mathlib.Text.{◌==◌ as str_eq}
use jobsd.Common.{ℕ, ◌*◌, String, Option, Bool, ℤ, ◌≡◌, some, false}
use jobsd.Common.Text.{Runes, is_blank}
use jobsd.Domain.{OnFinishConfig, Time}

-- A *time.Location, by its name.
abbrev pub Location : Type 0
Location = String

pub record Env : Type 0 where
  -- url.Parse, then the fields Scheme and Hostname()
  pub parse_url : String → Option (String × String)
  -- json.Marshal and json.Unmarshal at OnFinishConfig
  pub marshal : OnFinishConfig → String
  pub unmarshal : String → Option OnFinishConfig
  -- time.ParseDuration, in nanoseconds
  pub parse_duration : Runes → Option ℤ
  -- whether cronParser.Parse accepts an expression, and the Next of what it returns
  pub parse_cron : Runes → Bool
  pub cron_next : Runes → Location → Time → Time
  -- time.LoadLocation
  pub load_location : String → Option Location

-- encoding/json reads back what it wrote for a configuration, and writes an object, which no text
-- of spaces is.
pub record JsonRoundTrip (env : Env) (c : OnFinishConfig) : Type 0 where
  pub read_back : env.unmarshal (env.marshal c) ≡ some c
  pub visible : is_blank (env.marshal c) ≡ false

-- How package strconv writes and reads an int, and package time a time: RFC 3339 text in UTC names
-- the second of a time.
pub record Codec : Type 0 where
  pub itoa : ℤ → String
  pub atoi : String → Option ℤ
  pub write_time : ℕ → String
  pub read_time : String → Option Time

-- The two read back what they wrote, and write no empty text for a time.
pub record CodecRoundTrip (codec : Codec) (number : ℤ) (seconds : ℕ) : Type 0 where
  pub number_back : codec.atoi (codec.itoa number) ≡ some number
  pub time_back : codec.read_time (codec.write_time seconds) ≡ some (seconds * 1_000_000_000)
  pub time_visible : str_eq (codec.write_time seconds) "" ≡ false
