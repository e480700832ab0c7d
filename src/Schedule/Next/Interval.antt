-- ===== src/Schedule/Next/Interval.antt =====
-- The next time of an interval schedule, and of any schedule that Parse returned.
use jobsd.Common.{
  ℕ, zero, suc, ◌+◌, ◌<◌, true, Option, none, some, List, [], ◌∷◌, ◌++◌, ℤ, pos, negsuc, ◌≡◌, ◌≢◌,
  refl, arith, ap, ◌∙◌, Bool-cases, inl, inr,
}
use jobsd.Common.Int.{is_nonpositive}
use jobsd.Common.Text.{Runes, runes, fields, to_lower, text_eq}
use jobsd.Schedule.Parser.Canonical.{parse-IsCanonical, parse-expr}
use jobsd.Common.Text.Words.{fields-join}
use jobsd.Result.{invalid, ok, ◌>>=◌, ◌>>◌, refuse_if}
use jobsd.Domain.{Schedule, ScheduleKind, Time}
use jobsd.Env.{Env, Location}
use jobsd.Schedule.Parser.{
  parse_duration_schedule, parse_cron_schedule, parse_fields, parse, require_duration,
}
use jobsd.Schedule.Next.{same_kind, next}

module _ (env : Env) where
  -- The fields of a schedule that repeats or fires once: a keyword and a positive duration.
  abbrev IsTimed : List Runes → Type 0
  IsTimed fs =
      (w : Runes) × (text : Runes) × (n : ℕ) × (fs ≡ w ∷ text ∷ [])
      × (env.parse_duration text ≡ some (pos (suc n)))

  cron_kind :
      (fs : List Runes) {s : Schedule}
      → parse_cron_schedule env fs ≡ ok s
      → s.kind ≡ ScheduleKind.cron
  unfolding parse_cron_schedule
  cron_kind (first ∷ minute ∷ hour ∷ dom ∷ month ∷ dow ∷ []) e = ground arith
  cron_kind _ e = cc

  duration-IsTimed :
      (kind : ScheduleKind) (keyword : Runes) (fs : List Runes) {s : Schedule}
      → parse_duration_schedule env kind keyword fs ≡ ok s
      → IsTimed fs
  unfolding parse_duration_schedule
  duration-IsTimed kind keyword (w ∷ text ∷ []) {s} e = go (env.parse_duration text) refl e
    where
      go :
          (o : Option ℤ)
          → env.parse_duration text ≡ o
          → (require_duration o >>= λ d.
              refuse_if (is_nonpositive d) (invalid "duration must be greater than zero")
              >> ok (record { kind = kind; expr = keyword ++ (runes " " ++ text) }))
            ≡ ok s
          → IsTimed (w ∷ text ∷ [])
      go none p k = cc
      go (some (pos zero)) p k = cc
      go (some (pos (suc n))) p k = (w, text, n, refl, p)
      go (some (negsuc n)) p k = cc
  duration-IsTimed kind keyword _ e = cc

  fields-IsTimed :
      (fs : List Runes) {s : Schedule}
      → s.kind ≢ ScheduleKind.cron
      → parse_fields env fs ≡ ok s
      → IsTimed fs
  fields-IsTimed [] not_cron e = unfold parse_fields in cc
  fields-IsTimed (w ∷ ws) {s} not_cron e =
      elim (Bool-cases (text_eq (to_lower w) (runes "every"))) [
        | inl a ↦
            duration-IsTimed ScheduleKind.interval (to_lower w) (w ∷ ws) {s = s}
              (unfold parse_fields in ground arith)
        | inr a ↦ elim (Bool-cases (text_eq (to_lower w) (runes "after"))) [
          | inl b ↦
              duration-IsTimed ScheduleKind.once (to_lower w) (w ∷ ws) {s = s}
                (unfold parse_fields in ground arith)
          | inr b ↦
              absurd (not_cron (cron_kind (w ∷ ws) {s = s} (unfold parse_fields in ground arith)))
        ]
      ]

  duration_kind :
      (kind : ScheduleKind) (keyword : Runes) (fs : List Runes) {s : Schedule}
      → parse_duration_schedule env kind keyword fs ≡ ok s
      → s.kind ≡ kind
  unfolding parse_duration_schedule
  duration_kind kind keyword (w ∷ text ∷ []) e = ground arith
  duration_kind kind keyword _ e = cc

  -- the kind of a parsed schedule is one of the three
  fields_kind :
      (fs : List Runes) {s : Schedule} → parse_fields env fs ≡ ok s → same_kind s.kind s.kind ≡ true
  fields_kind [] e = unfold parse_fields in cc
  fields_kind (w ∷ ws) {s} e =
      unfold parse_fields same_kind in
      ground (
        arith,
        duration_kind ScheduleKind.interval (to_lower w) (w ∷ ws) {s = s},
        duration_kind ScheduleKind.once (to_lower w) (w ∷ ws) {s = s},
        cron_kind (w ∷ ws) {s = s},
      )

  next_of_parts :
      (s : Schedule) (w text : Runes) (n : ℕ) (ref : Time) (loc : Option Location)
      → parse env s.expr ≡ ok s
      → fields s.expr ≡ w ∷ text ∷ []
      → env.parse_duration text ≡ some (pos (suc n))
      → s.kind ≢ ScheduleKind.cron
      → same_kind s.kind s.kind ≡ true
      → next env s ref loc ≡ ok (ref + suc n)
  unfolding next
  next_of_parts s w text n ref loc h f d not_cron same = ground arith

  -- A schedule that Parse returned and that is no cron schedule names, from any reference time and
  -- in any zone, the time a fixed positive duration later.
  pub next_timed :
      (raw : Runes) {s : Schedule}
      → parse env raw ≡ ok s
      → s.kind ≢ ScheduleKind.cron
      → (n : ℕ) × (0 < n)
        × ((ref : Time) (loc : Option Location) → next env s ref loc ≡ ok (ref + n))
  next_timed raw {s} h not_cron =
      let (w, ws, word, words, spelled, parsed) = parse-IsCanonical env raw {s = s} h in
      let (v, text, n, shape, d) = fields-IsTimed (w ∷ ws) {s = s} not_cron parsed in
      (
        suc n,
        omega arith,
        λ ref loc.
            next_of_parts s v text n ref loc (parse-expr env raw h)
              (ap fields spelled ∙ (fields-join (w ∷ ws) (word, words) ∙ shape)) d not_cron
              (fields_kind (w ∷ ws) {s = s} parsed),
      )
