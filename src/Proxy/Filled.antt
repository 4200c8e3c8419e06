-- ===== src/Proxy/Filled.antt =====
-- Writes to the pipe of a streamed response whose lines fit the scanner's buffer, and one that fills
-- it.
use mathlib.Core.Path.{subst}
use ai_local.Prelude.{
  ==_iff, All, Bool, Text, [], ap, arith, false, if◌then◌else◌, length, length-append, ltb, none,
  refl, some, sym, true, ℕ, ◌++◌, ◌+◌, ◌<◌, ◌==◌, ◌∷◌, ◌≡◌, ◌≢◌, ◌≤◌,
}
use ai_local.Usage.Lines.{max_token_size, raw_lines}
use ai_local.Proxy.Tunnel.{Scanner, pipe_write, scan_byte, taken_one}
use ai_local.Proxy.Pipe.{ahead, left}

abbrev pub IsShort : Text → Type 0
IsShort l = length l < max_token_size

-- A line that fills the buffer is among the lines, whatever comes behind.
long_stays : (line s : Text) → max_token_size ≤ length line → All IsShort (raw_lines line s) → ⊥
unfolding raw_lines
long_stays [] [] h a = omega arith
long_stays (x ∷ line) [] h a = omega arith
long_stays line (c ∷ s) h a =
    by_byte (long_stays (line ++ c ∷ []) s (omega (arith, length-append line (c ∷ []))))
      (c == b'\n') a
  where
    by_byte :
        (All IsShort (raw_lines (line ++ c ∷ []) s) → ⊥)
        → (newline : Bool)
        → All IsShort
            (elim newline [ true ↦ line ∷ raw_lines [] s | false ↦ raw_lines (line ++ c ∷ []) s ])
        → ⊥
    by_byte more true b = omega (arith, b.0)
    by_byte more false b = more b

-- A write all of whose lines fit is complete.
pub pipe_write_fits :
    (line s : Text)
    → length line < max_token_size
    → All IsShort (raw_lines line s)
    → (pipe_write (some (length line)) s).complete ≡ true
unfolding pipe_write raw_lines scan_byte
pipe_write_fits line [] h a = refl
pipe_write_fits line (c ∷ s) h a =
    by_byte (pipe_write_fits [] s (omega arith)) (pipe_write_fits (line ++ c ∷ []) s) (c == b'\n')
      (ltb (length line + 1) max_token_size) refl refl a
  where
    begun : length (line ++ c ∷ []) ≡ length line + 1
    begun = length-append line (c ∷ [])

    by_byte :
        (All IsShort (raw_lines [] s) → (pipe_write (some 0) s).complete ≡ true)
        → (length (line ++ c ∷ []) < max_token_size
            → All IsShort (raw_lines (line ++ c ∷ []) s)
            → (pipe_write (some (length (line ++ c ∷ []))) s).complete ≡ true)
        → (newline fits : Bool) → (ltb (length line + 1) max_token_size) ≡ fits
        → (c == b'\n') ≡ newline
        → All IsShort
            (elim newline [ true ↦ line ∷ raw_lines [] s | false ↦ raw_lines (line ++ c ∷ []) s ])
        → (pipe_write
            (if newline then some 0 else if fits then some (length line + 1) else none)
            s).complete
          ≡ true
    by_byte new more true fits e' e b = new b.1
    by_byte new more false true e' e b =
        subst (λ n. (pipe_write (some n) s).complete ≡ true) begun (more (ground (arith, begun)) b)
    by_byte new more false false e' e b =
        absurd (long_stays (line ++ c ∷ []) s (ground (arith, begun)) b)

-- Behind a line feed that was taken the scanner begins a new line.
pub pipe_write-newline :
    (scanner : Scanner) (s : Text)
    → (pipe_write scanner (s ++ b'\n' ∷ [])).complete ≡ true
    → (pipe_write scanner (s ++ b'\n' ∷ [])).scanner ≡ some 0
unfolding pipe_write scan_byte
pipe_write-newline none [] h = absurd (ground arith)
pipe_write-newline (some n) [] h = refl
pipe_write-newline none (c ∷ s) h = absurd (ground arith)
pipe_write-newline (some n) (c ∷ s) h = pipe_write-newline (scan_byte n c) s h

scan_byte_full : (n c : ℕ) → c ≢ b'\n' → n + 1 ≡ max_token_size → scan_byte n c ≡ none
unfolding scan_byte
scan_byte_full n c h b = ground (arith, ==_iff c b'\n')

scan_byte_more : (n c : ℕ) → c ≢ b'\n' → n + 1 < max_token_size → scan_byte n c ≡ some (n + 1)
unfolding scan_byte
scan_byte_more n c h b = ground (arith, ==_iff c b'\n')

-- A line that fills the buffer is taken up to there, and no more.
pub pipe_write_long :
    (n : ℕ) (long after : Text)
    → All (λ c. c ≢ b'\n') long
    → n + length long ≡ max_token_size
    → n < max_token_size
    → after ≢ []
    → left (pipe_write (some n) (long ++ after))
      ≡ left (record { scanner = none; taken = long; complete = false })
unfolding pipe_write
pipe_write_long n [] after a h b ne = absurd (omega arith)
pipe_write_long n (c ∷ []) [] a h b ne = absurd (ne refl)
pipe_write_long n (c ∷ []) (d ∷ after) a h b ne =
    subst
      (λ sc.
        left (taken_one c (pipe_write sc (d ∷ after)))
        ≡ left (record { scanner = none; taken = c ∷ []; complete = false }))
      (sym (scan_byte_full n c a.0 (omega arith))) refl
pipe_write_long n (c ∷ e ∷ long) after a h b ne =
    subst
      (λ sc.
        left (taken_one c (pipe_write sc (e ∷ (long ++ after))))
        ≡ left (record { scanner = none; taken = c ∷ e ∷ long; complete = false }))
      (sym (scan_byte_more n c a.0 (omega arith)))
      (ap (ahead (c ∷ []))
        (pipe_write_long (n + 1) (e ∷ long) after a.1 (omega arith) (omega arith) ne))
