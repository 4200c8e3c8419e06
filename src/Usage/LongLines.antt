-- ===== src/Usage/LongLines.antt =====
-- A line that does not fit the scanner's buffer ends the counting.
use ai_local.Prelude.{
  ==_iff, All, Bool-cases, List, Option, Option-cases, Text, [], ap, arith, inl, inr, length,
  length-append, map, none, pos, refl, some, ◌++◌, ◌+◌, ◌==◌, ◌∙◌, ◌∷◌, ◌≡◌, ◌≢◌, ◌≤◌,
}
use ai_local.Apml.{ProviderConfig, EventConfig, StreamingConfig}
use ai_local.Json.{JsonGet}
use ai_local.Usage.Lines.{scan_lines, max_token_size, raw_lines, take_short, drop_cr}
use ai_local.Usage.Stream.{
  parse_stream_reader, parse_last_stream, parse_split_stream, each_chunk, last_chunk,
  parse_split_events, split_chunk,
}

pub raw_lines-append :
    (line p s : Text)
    → raw_lines line (p ++ b'\n' ∷ s) ≡ raw_lines line (p ++ b'\n' ∷ []) ++ raw_lines [] s
unfolding raw_lines
raw_lines-append line [] s = refl
raw_lines-append line (c ∷ p) s = elim (Bool-cases (c == b'\n')) [
  | inl e ↦ rw (e, raw_lines) (ap (λ (l : List Text). line ∷ l) (raw_lines-append [] p s))
  | inr e ↦ rw (e, raw_lines) (raw_lines-append (line ++ c ∷ []) p s)
]

-- A line that is too long already stays too long.
pub take_short-full :
    (line s : Text) → max_token_size ≤ length line → take_short (raw_lines line s) ≡ []
unfolding raw_lines take_short
take_short-full [] [] h = refl
take_short-full (x ∷ line) [] h = ground arith
take_short-full line (c ∷ s) h = elim (Bool-cases (c == b'\n')) [
  | inl e ↦ rw (e, raw_lines) (ground arith)
  | inr e ↦
      rw (e, raw_lines)
        (take_short-full (line ++ c ∷ []) s (omega (arith, length-append line (c ∷ []))))
]

pub take_short-long :
    (line long s : Text)
    → All (λ c. c ≢ b'\n') long
    → max_token_size ≤ length line + length long
    → take_short (raw_lines line (long ++ s)) ≡ []
unfolding raw_lines
take_short-long line [] s a h = take_short-full line s (omega arith)
take_short-long line (c ∷ long) s a h = elim (Bool-cases (c == b'\n')) [
  | inl e ↦ absurd (a.0 ((==_iff c b'\n').0 e))
  | inr e ↦
      rw (e, raw_lines)
        (take_short-long (line ++ c ∷ []) long s a.1 (omega (arith, length-append line (c ∷ []))))
]

pub take_short-append :
    (xs ys : List Text) → take_short ys ≡ [] → take_short (xs ++ ys) ≡ take_short xs
unfolding take_short
take_short-append [] ys e = e
take_short-append (x ∷ xs) ys e = rw (take_short-append xs ys e)

scan_lines_stops :
    (before long after : Text)
    → All (λ c. c ≢ b'\n') long
    → max_token_size ≤ length long
    → scan_lines (before ++ b'\n' ∷ (long ++ after)) ≡ scan_lines (before ++ b'\n' ∷ [])
unfolding scan_lines
scan_lines_stops before long after a h =
    ap (λ (lines : List Text). map drop_cr lines)
      (ap take_short (raw_lines-append [] before (long ++ after))
        ∙ take_short-append (raw_lines [] (before ++ b'\n' ∷ [])) (raw_lines [] (long ++ after))
            (take_short-long [] long after a (omega arith)))

module _ (get : JsonGet) (s t : Text) where
  events-lines :
      (input output : Option EventConfig)
      → scan_lines s ≡ scan_lines t
      → parse_split_events get input output s ≡ parse_split_events get input output t
  unfolding parse_split_events
  events-lines none output same = refl
  events-lines (some input) none same = refl
  events-lines (some input) (some output) same =
      ap (λ lines. each_chunk (split_chunk get input output) lines (pos 0, pos 0)) same

  last-lines :
      (cfg : StreamingConfig)
      → scan_lines s ≡ scan_lines t
      → parse_last_stream get s cfg ≡ parse_last_stream get t cfg
  unfolding parse_last_stream
  last-lines cfg same = ap (λ lines. each_chunk (last_chunk get cfg) lines (pos 0, pos 0)) same

  split-lines :
      (cfg : StreamingConfig)
      → scan_lines s ≡ scan_lines t
      → parse_split_stream get s cfg ≡ parse_split_stream get t cfg
  unfolding parse_split_stream
  split-lines cfg same = events-lines cfg.input cfg.output same

  -- The counts depend on the lines of the scanner alone.
  counts-lines :
      (provider : ProviderConfig)
      → scan_lines s ≡ scan_lines t
      → parse_stream_reader get s provider ≡ parse_stream_reader get t provider
  unfolding parse_stream_reader
  counts-lines provider same = elim (Option-cases provider.streaming) [
    | inl e ↦ ground arith
    | inr (cfg, e) ↦ ground (arith, split-lines cfg same, last-lines cfg same)
  ]

-- A line of 64 KiB or more ends the counting for good, in either mode: a stream whose complete
-- lines `before` are followed by such a line counts as the lines before it alone, whatever usage
-- chunks come after.
pub long_line_stops :
    (get : JsonGet) (provider : ProviderConfig) (before long after : Text)
    → All (λ c. c ≢ b'\n') long
    → max_token_size ≤ length long
    → parse_stream_reader get (before ++ b'\n' ∷ (long ++ after)) provider
      ≡ parse_stream_reader get (before ++ b'\n' ∷ []) provider
long_line_stops get provider before long after a h =
    counts-lines get (before ++ b'\n' ∷ (long ++ after)) (before ++ b'\n' ∷ []) provider
      (scan_lines_stops before long after a h)
