-- ===== src/Daemon/Executor/Capture.antt =====
-- What readCapturedStream keeps of a stream: its first 64 KiB, and whether there was more.
use mathlib.Core.List.{append-nil, append_assoc}
use jobsd.Common.{
  ℕ, ◌+◌, ◌-◌, ◌≤◌, ◌<◌, min, ◌||◌, ltb, ◌==◌, not, List, [], ◌∷◌, ◌++◌, if◌then◌else◌, length,
  take, ◌≡◌, refl, arith, sym, ap, ◌∙◌, Bool-cases, inl, inr,
}
use jobsd.Common.Lists.Taking.{
  length-append, length-take, take_all, take-append_short, take-append_long,
}
use jobsd.Daemon.Executor.{
  more, eof, failed, Chunk, CapturedStream, empty_stream, max_captured_output_bytes, capture_bytes,
  read_chunks, read_captured_stream,
}

-- The bytes of a stream, up to the read that ends it.
pub stream_bytes : List Chunk → List ℕ
stream_bytes [] = []
stream_bytes (more bytes ∷ chunks) = bytes ++ stream_bytes chunks
stream_bytes (eof bytes ∷ chunks) = bytes
stream_bytes (failed bytes message ∷ chunks) = bytes

-- `c` is what is kept of a stream that has given the bytes `s` so far.
pub record Captures (s : List ℕ) (c : CapturedStream) : Type 0 where
  pub text : c.text ≡ take max_captured_output_bytes s
  pub truncated : c.truncated ≡ ltb max_captured_output_bytes (length s)
  pub had_output : c.had_output ≡ not (length s == 0)

length_zero : (b : List ℕ) → length b ≡ 0 → b ≡ []
length_zero [] h = refl
length_zero (x ∷ b) h = absurd (omega arith)

-- the text after one more read, for any limit
grown_text : ℕ → List ℕ → List ℕ → List ℕ
grown_text limit text b =
    let remaining = limit - length text in
    if remaining == 0
    then text
    else if ltb remaining (length b)
    then text ++ take remaining b
    else text ++ b

grown_full :
    (limit : ℕ) (s b : List ℕ)
    → limit ≤ length s
    → grown_text limit (take limit s) b ≡ take limit (s ++ b)
unfolding grown_text
grown_full limit s b h =
    let e : limit - length (take limit s) ≡ 0 = omega (arith, length-take limit s) in
    rw e (sym (take-append_long limit s b h))

grown_open :
    (limit : ℕ) (s b : List ℕ) → length s < limit → grown_text limit s b ≡ take limit (s ++ b)
unfolding grown_text
grown_open limit s b h =
    ground (arith, take-append_short limit s b (omega arith), take_all (limit - length s) b)

grown_text_lem :
    (limit : ℕ) (s b : List ℕ) → grown_text limit (take limit s) b ≡ take limit (s ++ b)
grown_text_lem limit s b = elim (Bool-cases (ltb (length s) limit)) [
  | inl h ↦ rw (take_all limit s (ground arith)) (grown_open limit s b (ground arith))
  | inr h ↦ grown_full limit s b (ground arith)
]

capture_bytes-text :
    (b : List ℕ) (c : CapturedStream)
    → (capture_bytes b c).text ≡ grown_text max_captured_output_bytes c.text b
unfolding capture_bytes grown_text
capture_bytes-text [] c = ground (arith, append-nil c.text)
capture_bytes-text (x ∷ b) c = ground arith

capture_bytes-truncated :
    (b : List ℕ) (c : CapturedStream)
    → (capture_bytes b c).truncated
      ≡ (c.truncated || ltb (max_captured_output_bytes - length c.text) (length b))
unfolding capture_bytes
capture_bytes-truncated b c = ground arith

capture_bytes-had_output :
    (b : List ℕ) (c : CapturedStream)
    → (capture_bytes b c).had_output ≡ (c.had_output || not (length b == 0))
unfolding capture_bytes
capture_bytes-had_output b c = ground arith

truncated_grows : (limit n k : ℕ) → (ltb limit n || ltb (limit - min limit n) k) ≡ ltb limit (n + k)
truncated_grows limit n k = ground arith

had_output_grows : (n k : ℕ) → (not (n == 0) || not (k == 0)) ≡ not (n + k == 0)
had_output_grows n k = ground arith

capture_bytes-Captures :
    (s b : List ℕ) (c : CapturedStream) → Captures s c → Captures (s ++ b) (capture_bytes b c)
capture_bytes-Captures s b c h = record {
  text =
      capture_bytes-text b c
      ∙ (ap (λ t. grown_text max_captured_output_bytes t b) h.text
          ∙ grown_text_lem max_captured_output_bytes s b);
  truncated =
      rw (capture_bytes-truncated, h.truncated, h.text, length-take, length-append)
        (truncated_grows max_captured_output_bytes (length s) (length b));
  had_output =
      rw (capture_bytes-had_output, h.had_output, length-append)
        (had_output_grows (length s) (length b));
}

read_chunks-Captures :
    (chunks : List Chunk) (s : List ℕ) (c : CapturedStream)
    → Captures s c
    → Captures (s ++ stream_bytes chunks) (read_chunks chunks c)
unfolding read_chunks stream_bytes
read_chunks-Captures [] s c h = rw (append-nil s) h
read_chunks-Captures (more bytes ∷ chunks) s c h =
    rw (← append_assoc s bytes (stream_bytes chunks)) (
      read_chunks-Captures chunks (s ++ bytes) (capture_bytes bytes c)
        (capture_bytes-Captures s bytes c h))
read_chunks-Captures (eof bytes ∷ chunks) s c h = capture_bytes-Captures s bytes c h
read_chunks-Captures (failed bytes message ∷ chunks) s c h =
    let k = capture_bytes-Captures s bytes c h in
    record { text = k.text; truncated = k.truncated; had_output = k.had_output }

-- However the reads cut a stream up, its first 64 KiB are kept, it counts as truncated exactly when
-- it has more than 64 KiB, and as having had output exactly when it is not empty.
pub read_captured_stream-Captures :
    (chunks : List Chunk) → Captures (stream_bytes chunks) (read_captured_stream chunks)
unfolding read_captured_stream
read_captured_stream-Captures chunks =
    read_chunks-Captures chunks [] empty_stream
      (record { text = refl; truncated = refl; had_output = refl })
