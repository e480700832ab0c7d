-- ===== src/App/Support/Preview.antt =====
-- The preview of a run's output fits on a line of bounded length.
use jobsd.Common.{
  ℕ, ◌+◌, ◌≤◌, ◌<◌, leb, ◌==◌, ◌||◌, List, [], ◌∷◌, length, take, All, ◌≢◌, arith, Bool-cases, inl,
  inr,
}
use jobsd.Common.Lists.Laws.{All-append, All-take, length-take-le}
use jobsd.Common.Lists.Taking.{length-append}
use jobsd.App.Support.{cut_preview, escape, preview_output}

-- neither a line feed nor a carriage return
abbrev pub IsInline : ℕ → Type 0
IsInline c = (c ≢ 10) × (c ≢ 13)

backslash : IsInline 92
backslash = (ground arith, ground arith)

letter_r : IsInline 114
letter_r = (ground arith, ground arith)

letter_n : IsInline 110
letter_n = (ground arith, ground arith)

dot : IsInline 46
dot = (ground arith, ground arith)

escape-IsInline : (text : List ℕ) → All IsInline (escape text)
unfolding escape
escape-IsInline [] = tt
escape-IsInline (c ∷ text) =
    let rest = escape-IsInline text in
    elim (Bool-cases (c == 13)) [
      | inl e ↦ rw e (backslash, (letter_r, rest))
      | inr e ↦ elim (Bool-cases (c == 10)) [
        | inl f ↦ rw (e, f) (backslash, (letter_n, rest))
        | inr f ↦ rw (e, f) ((ground arith, ground arith), rest)
      ]
    ]

cut_preview-IsInline :
    (max : ℕ) (text : List ℕ) → All IsInline text → All IsInline (cut_preview max text)
cut_preview-IsInline max text h = elim (Bool-cases (max == 0 || leb (length text) max)) [
  | inl e ↦ rw e h
  | inr e ↦ rw e (
      All-append IsInline (take max text) (46 ∷ 46 ∷ 46 ∷ []) (All-take IsInline max text h)
        (dot, (dot, (dot, tt))))
]

-- A preview with a positive maximum has no line break, and is at most three longer than the maximum,
-- for the dots.
pub preview_output-bounds :
    (text : List ℕ) (max : ℕ)
    → 0 < max
    → (length (preview_output text max) ≤ max + 3) × All IsInline (preview_output text max)
unfolding preview_output
preview_output-bounds text max positive = (
  ground (
    arith,
    length-append (take max (escape text)) (46 ∷ 46 ∷ 46 ∷ []),
    length-take-le max (escape text),
  ),
  cut_preview-IsInline max (escape text) (escape-IsInline text),
)
