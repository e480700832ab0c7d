-- ===== src/Schedule/Parser.antt =====
-- internal/schedule/parser.go
pub mod Canonical
use jobsd.Common.{Bool, Option, none, some, List, [], ◌∷◌, ◌++◌, ℤ, if◌then◌else◌}
use jobsd.Common.Int.{is_nonpositive}
use jobsd.Common.Text.{Runes, runes, is_empty, trim_space, fields, join, to_lower, text_eq}
use jobsd.Result.{invalid, Result, ok, err, ◌>>=◌, ◌>>◌, refuse_if}
use jobsd.Domain.{Schedule, ScheduleKind}
use jobsd.Env.{Env}

abbrev pub space : Runes
space = runes " "

unfoldable pub require_duration : Option ℤ → Result ℤ
require_duration none = err (invalid "parse duration")
require_duration (some d) = ok d

module _ (env : Env) where
  unfoldable pub parse_duration_schedule : ScheduleKind → Runes → List Runes → Result Schedule
  unfolding require_duration
  parse_duration_schedule kind keyword (first ∷ text ∷ []) = do
    duration ← require_duration (env.parse_duration text)
    refuse_if (is_nonpositive duration) (invalid "duration must be greater than zero")
    ok (record { kind = kind; expr = keyword ++ (space ++ text) })
  parse_duration_schedule kind keyword _ = err (invalid "schedules require exactly one duration")

  unfoldable pub parse_cron_schedule : List Runes → Result Schedule
  unfolding join
  parse_cron_schedule (first ∷ minute ∷ hour ∷ dom ∷ month ∷ dow ∷ []) =
      let expr = join space (minute ∷ hour ∷ dom ∷ month ∷ dow ∷ []) in
      if env.parse_cron expr
      then ok (record { kind = ScheduleKind.cron; expr = runes "cron " ++ expr })
      else err (invalid "parse cron expression")
  parse_cron_schedule _ = err (invalid "cron schedules require exactly five fields")

  unfoldable pub parse_fields : List Runes → Result Schedule
  unfolding parse_duration_schedule parse_cron_schedule to_lower text_eq
  parse_fields [] = err (invalid "empty schedule expression")
  parse_fields (first ∷ rest) =
      let keyword = to_lower first in
      if text_eq keyword (runes "every")
      then parse_duration_schedule ScheduleKind.interval keyword (first ∷ rest)
      else if text_eq keyword (runes "after")
      then parse_duration_schedule ScheduleKind.once keyword (first ∷ rest)
      else if text_eq keyword (runes "cron")
      then parse_cron_schedule (first ∷ rest)
      else err (invalid "unsupported schedule keyword")

  unfoldable pub parse : Runes → Result Schedule
  unfolding parse_fields trim_space fields
  parse raw =
      let trimmed = trim_space raw in
      if is_empty trimmed
      then err (invalid "empty schedule expression")
      else parse_fields (fields trimmed)
