-- ===== src/Schedule/Next.antt =====
-- internal/schedule/next.go
pub mod Interval
pub mod Cron
use jobsd.Common.{
  Bool, true, false, Option, none, some, List, [], ◌∷◌, String, ℤ, if◌then◌else◌, not,
}
use jobsd.Common.Int.{add_signed}
use jobsd.Common.Text.{Runes, runes, fields, trim_prefix}
use jobsd.Result.{invalid, index_out_of_range, Result, ok, err, ◌>>=◌, ◌>>◌, refuse_if}
use jobsd.Domain.{Schedule, ScheduleKind, Time}
use jobsd.Env.{Env, Location}
use jobsd.Schedule.Parser.{parse, require_duration}

-- time.Local
abbrev pub local : Location
local = "Local"

-- `parsed.Kind != spec.Kind`, where the parsed kind is one of the three
unfoldable pub same_kind : ScheduleKind → ScheduleKind → Bool
same_kind ScheduleKind.interval ScheduleKind.interval = true
same_kind ScheduleKind.cron ScheduleKind.cron = true
same_kind ScheduleKind.once ScheduleKind.once = true
same_kind _ _ = false

-- `strings.Fields(parsed.Expr)[1]`
unfoldable pub duration_text : List Runes → Result Runes
duration_text (first ∷ text ∷ rest) = ok text
duration_text _ = err index_out_of_range

abbrev pub location_or_local : Option Location → Location
location_or_local none = local
location_or_local (some l) = l

module _ (env : Env) where
  unfoldable pub next_after_duration : Runes → Time → Result Time
  unfolding duration_text require_duration
  next_after_duration expr ref = do
    text ← duration_text (fields expr)
    duration ← require_duration (env.parse_duration text)
    ok (add_signed ref duration)

  unfoldable pub next_by_cron : Runes → Time → Option Location → Result Time
  unfolding trim_prefix
  next_by_cron expr ref loc =
      let fields_of_cron = trim_prefix expr (runes "cron ") in
      if env.parse_cron fields_of_cron
      then ok (env.cron_next fields_of_cron (location_or_local loc) ref)
      else err (invalid "parse cron expression")

  unfoldable pub next_of_kind : ScheduleKind → Runes → Time → Option Location → Result Time
  unfolding next_after_duration next_by_cron
  next_of_kind ScheduleKind.interval expr ref loc = next_after_duration expr ref
  next_of_kind ScheduleKind.once expr ref loc = next_after_duration expr ref
  next_of_kind ScheduleKind.cron expr ref loc = next_by_cron expr ref loc
  next_of_kind (ScheduleKind.unknown s) expr ref loc = err (invalid "unsupported schedule kind")

  unfoldable pub next : Schedule → Time → Option Location → Result Time
  unfolding same_kind next_of_kind
  next spec ref loc = do
    parsed ← parse env spec.expr
    refuse_if (not (same_kind parsed.kind spec.kind)) (invalid "schedule kind mismatch")
    next_of_kind parsed.kind parsed.expr ref loc
