-- ===== src/Schedule/Parser/Canonical.antt =====
-- The text that Parse returns is canonical: it parses to itself.
use jobsd.Common.{
  true, false, List, [], ◌∷◌, ◌≡◌, refl, arith, All, Bool-cases, inl, inr, sym, ap, ◌∙◌,
}
use jobsd.Common.Text.{Runes, runes, is_space, trim_space, fields, join, to_lower, text_eq}
use jobsd.Common.Text.Words.{IsWord, fields-words, fields-join, trim_space-join, text_eq_sound}
use jobsd.Result.{ok}
use jobsd.Domain.{Schedule, ScheduleKind}
use jobsd.Env.{Env}
use jobsd.Schedule.Parser.{space, parse_duration_schedule, parse_cron_schedule, parse_fields, parse}

module _ (env : Env) where
  -- A text of words with one space between them is parsed as those words.
  pub parse-join :
      (w : Runes) (ws : List Runes)
      → IsWord w
      → All IsWord ws
      → parse env (join space (w ∷ ws)) ≡ parse_fields env (w ∷ ws)
  parse-join w ws h k =
      let t = trim_space-join w ws h k in
      unfold parse in rw (t.0, t.1) (rw (fields-join (w ∷ ws) (h, k)))

  -- The text of a parsed schedule is made of words that parse to the schedule.
  abbrev pub IsCanonical : Schedule → Type 0
  IsCanonical s =
      (w : Runes) × (ws : List Runes) × IsWord w
      × All IsWord ws
      × (s.expr ≡ join space (w ∷ ws))
      × (parse_fields env (w ∷ ws) ≡ ok s)

  duration-IsCanonical :
      (kind : ScheduleKind) (keyword : Runes) (fs : List Runes) {s : Schedule}
      → IsWord keyword
      → All IsWord fs
      → ((text : Runes)
          → parse_fields env (keyword ∷ text ∷ [])
            ≡ parse_duration_schedule env kind keyword (keyword ∷ text ∷ []))
      → parse_duration_schedule env kind keyword fs ≡ ok s
      → IsCanonical s
  unfolding parse_duration_schedule join
  duration-IsCanonical kind keyword (f ∷ text ∷ []) h k same e =
      (keyword, text ∷ [], h, (k.1.0, tt), ground arith, same text ∙ e)
  duration-IsCanonical kind keyword _ h k same e = cc

  cron-IsCanonical :
      (fs : List Runes) {s : Schedule}
      → All IsWord fs
      → parse_cron_schedule env fs ≡ ok s
      → IsCanonical s
  unfolding parse_cron_schedule parse_fields join is_space
  cron-IsCanonical (first ∷ minute ∷ hour ∷ dom ∷ month ∷ dow ∷ []) h e = (
    runes "cron",
    minute ∷ hour ∷ dom ∷ month ∷ dow ∷ [],
    (refl, (refl, (refl, (refl, tt)))),
    h.1,
    ground arith,
    e,
  )
  cron-IsCanonical _ h e = cc

  every_lem :
      (first : Runes) (rest : List Runes)
      → text_eq (to_lower first) (runes "every") ≡ true
      → parse_fields env (first ∷ rest)
        ≡ parse_duration_schedule env ScheduleKind.interval (runes "every") (first ∷ rest)
  unfolding parse_fields
  every_lem first rest h =
      let e = text_eq_sound (to_lower first) (runes "every") h in
      rw e (ap (λ k. parse_duration_schedule env ScheduleKind.interval k (first ∷ rest)) e)

  after_lem :
      (first : Runes) (rest : List Runes)
      → text_eq (to_lower first) (runes "after") ≡ true
      → parse_fields env (first ∷ rest)
        ≡ parse_duration_schedule env ScheduleKind.once (runes "after") (first ∷ rest)
  unfolding parse_fields
  after_lem first rest h =
      let e = text_eq_sound (to_lower first) (runes "after") h in
      rw e (ap (λ k. parse_duration_schedule env ScheduleKind.once k (first ∷ rest)) e)

  cron_lem :
      (first : Runes) (rest : List Runes)
      → text_eq (to_lower first) (runes "every") ≡ false
      → text_eq (to_lower first) (runes "after") ≡ false
      → {s : Schedule} → parse_fields env (first ∷ rest) ≡ ok s
      → parse_cron_schedule env (first ∷ rest) ≡ ok s
  unfolding parse_fields
  cron_lem first rest h k e = ground arith

  parse_fields-IsCanonical :
      (fs : List Runes) {s : Schedule} → All IsWord fs → parse_fields env fs ≡ ok s → IsCanonical s
  parse_fields-IsCanonical [] h e = unfold parse_fields in cc
  parse_fields-IsCanonical (first ∷ rest) h e =
      elim (Bool-cases (text_eq (to_lower first) (runes "every"))) [
        | inl every ↦
            duration-IsCanonical ScheduleKind.interval (runes "every") (first ∷ rest)
              (unfold is_space in (refl, (refl, (refl, (refl, (refl, tt)))))) h
              (λ text. unfold parse_fields in refl) (sym (every_lem first rest every) ∙ e)
        | inr not_every ↦ elim (Bool-cases (text_eq (to_lower first) (runes "after"))) [
          | inl after ↦
              duration-IsCanonical ScheduleKind.once (runes "after") (first ∷ rest)
                (unfold is_space in (refl, (refl, (refl, (refl, (refl, tt)))))) h
                (λ text. unfold parse_fields in refl) (sym (after_lem first rest after) ∙ e)
          | inr not_after ↦
              cron-IsCanonical (first ∷ rest) h (cron_lem first rest not_every not_after e)
        ]
      ]

  accepted :
      (raw : Runes) {s : Schedule}
      → parse env raw ≡ ok s
      → parse_fields env (fields (trim_space raw)) ≡ ok s
  accepted raw h = unfold parse in ground arith

  pub parse-IsCanonical : (raw : Runes) {s : Schedule} → parse env raw ≡ ok s → IsCanonical s
  parse-IsCanonical raw {s} h =
      parse_fields-IsCanonical (fields (trim_space raw)) {s = s} (fields-words (trim_space raw))
        (accepted raw h)

  -- What Parse returns is canonical: its text parses to the very same schedule.
  pub parse-expr : (raw : Runes) {s : Schedule} → parse env raw ≡ ok s → parse env s.expr ≡ ok s
  parse-expr raw {s} h =
      let (w, ws, word, words, spelled, parsed) = parse-IsCanonical raw {s = s} h in
      ap (parse env) spelled ∙ (parse-join w ws word words ∙ parsed)
