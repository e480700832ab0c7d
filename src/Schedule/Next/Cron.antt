-- ===== src/Schedule/Next/Cron.antt =====
-- The next time of a cron schedule that Parse returned: what the cron library says.
use jobsd.Common.{true, Option, List, [], ◌∷◌, ◌≡◌, arith}
use jobsd.Common.Text.{Runes, runes, trim_prefix, to_lower}
use jobsd.Result.{ok}
use jobsd.Domain.{Schedule, ScheduleKind, Time}
use jobsd.Env.{Env, Location}
use jobsd.Schedule.Parser.{parse_duration_schedule, parse_cron_schedule, parse_fields, parse}
use jobsd.Schedule.Parser.Canonical.{parse-IsCanonical, parse-expr}
use jobsd.Schedule.Next.{location_or_local, next}

-- `parse_cron` is asked about this text by Parse and by Next alike.
abbrev pub cron_text : Schedule → Runes
cron_text s = trim_prefix s.expr (runes "cron ")

module _ (env : Env) where
  cron_accepted :
      (fs : List Runes) {s : Schedule}
      → parse_cron_schedule env fs ≡ ok s
      → env.parse_cron (cron_text s) ≡ true
  unfolding parse_cron_schedule trim_prefix
  cron_accepted (first ∷ minute ∷ hour ∷ dom ∷ month ∷ dow ∷ []) e = ground arith
  cron_accepted _ e = cc

  duration_not_cron :
      (kind : ScheduleKind) (keyword : Runes) (fs : List Runes) {s : Schedule}
      → parse_duration_schedule env kind keyword fs ≡ ok s
      → s.kind ≡ kind
  unfolding parse_duration_schedule
  duration_not_cron kind keyword (w ∷ text ∷ []) e = ground arith
  duration_not_cron kind keyword _ e = cc

  fields_accepted :
      (fs : List Runes) {s : Schedule}
      → s.kind ≡ ScheduleKind.cron
      → parse_fields env fs ≡ ok s
      → env.parse_cron (cron_text s) ≡ true
  fields_accepted [] k e = unfold parse_fields in cc
  fields_accepted (w ∷ ws) {s} k e =
      unfold parse_fields in
      ground (
        arith,
        duration_not_cron ScheduleKind.interval (to_lower w) (w ∷ ws) {s = s},
        duration_not_cron ScheduleKind.once (to_lower w) (w ∷ ws) {s = s},
        cron_accepted (w ∷ ws) {s = s},
      )

  next_of_cron :
      (s : Schedule) (ref : Time) (loc : Option Location)
      → parse env s.expr ≡ ok s
      → s.kind ≡ ScheduleKind.cron
      → env.parse_cron (cron_text s) ≡ true
      → next env s ref loc ≡ ok (env.cron_next (cron_text s) (location_or_local loc) ref)
  unfolding next
  next_of_cron s ref loc h k c = ground arith

  -- A cron schedule that Parse returned is never refused by Next, which answers as the library does.
  pub next_cron :
      (raw : Runes) {s : Schedule} (ref : Time) (loc : Option Location)
      → parse env raw ≡ ok s
      → s.kind ≡ ScheduleKind.cron
      → next env s ref loc ≡ ok (env.cron_next (cron_text s) (location_or_local loc) ref)
  next_cron raw {s} ref loc h k =
      let (w, ws, word, words, spelled, parsed) = parse-IsCanonical env raw {s = s} h in
      next_of_cron s ref loc (parse-expr env raw h) k (fields_accepted (w ∷ ws) {s = s} k parsed)
