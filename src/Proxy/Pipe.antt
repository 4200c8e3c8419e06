-- ===== src/Proxy/Pipe.antt =====
-- The pipe between a streamed response and the scanner that counts it, write by write.
use ai_local.Prelude.{
  Bool, List, Text, [], ap, arith, false, if◌then◌else◌, length, length-append, ltb, none, refl,
  some, sym, true, ℕ, ◌++◌, ◌+◌, ◌<◌, ◌==◌, ◌∙◌, ◌∷◌, ◌≡◌,
}
use ai_local.Usage.Lines.{max_token_size, raw_lines, take_short}
use ai_local.Proxy.Tunnel.{Scanner, Write, pipe_write, relay, scan_byte, taken_one}
use mathlib.Core.Path.{subst, ap₂}
use ai_local.Usage.LongLines.{take_short-full}

abbrev pub concat : List Text → Text
concat [] = []
concat (chunk ∷ rest) = chunk ++ concat rest

-- One write of two parts is two writes, of which the second is made if the first is complete.
abbrev pub both : Write → (Scanner → Write) → Write
both w next =
    if w.complete then record (next w.scanner) { taken = w.taken ++ (next w.scanner).taken } else w

both-taken_one :
    (c : ℕ) (w : Write) (next : Scanner → Write)
    → taken_one c (both w next) ≡ both (taken_one c w) next
both-taken_one c w next = by_end w.complete
  where
    by_end :
        (d : Bool)
        → taken_one c (both (record w { complete = d }) next)
          ≡ both (taken_one c (record w { complete = d })) next
    by_end true = refl
    by_end false = refl

pub pipe_write-append :
    (scanner : Scanner) (s t : Text)
    → pipe_write scanner (s ++ t) ≡ both (pipe_write scanner s) (λ after. pipe_write after t)
unfolding pipe_write
pipe_write-append scanner [] t = refl
pipe_write-append none (c ∷ s) t = refl
pipe_write-append (some n) (c ∷ s) t =
    ap (taken_one c) (pipe_write-append (scan_byte n c) s t)
    ∙ both-taken_one c (pipe_write (scan_byte n c) s) (λ after. pipe_write after t)

abbrev pub ahead : Text → Text × Bool → Text × Bool
ahead t behind = (t ++ behind.0, behind.1)

abbrev pub left : Write → Text × Bool
left w = (w.taken, w.complete)

-- What is left of two writes, the first complete.
pub left-both :
    (w : Write) (next : Scanner → Write) (taken : Text) (after : Scanner)
    → w.complete ≡ true
    → w.taken ≡ taken
    → w.scanner ≡ after
    → left (both w next) ≡ ahead taken (left (next after))
left-both w next taken after h p q = by_end w.complete h
  where
    by_end :
        (d : Bool)
        → d ≡ true
        → left (both (record w { complete = d }) next) ≡ ahead taken (left (next after))
    by_end true e = ap₂ (λ t sc. ahead t (left (next sc))) p q
    by_end false e = absurd (ground arith)

-- What the chunks behind a write make of the relay.
relay_both :
    (w : Write) (next : Scanner → Write) (behind : Text × Bool)
    → behind ≡ left (next w.scanner)
    → (if w.complete then ahead w.taken behind else left (record w { complete = false }))
      ≡ left (both w next)
relay_both w next behind e = by_end w.complete
  where
    by_end :
        (d : Bool)
        → (if d then ahead w.taken behind else left (record w { complete = false }))
          ≡ left (both (record w { complete = d }) next)
    by_end true = ap (ahead w.taken) e
    by_end false = refl

-- A write that is complete has taken all of its bytes.
pub pipe_write-taken :
    (scanner : Scanner) (s : Text)
    → (pipe_write scanner s).complete ≡ true
    → (pipe_write scanner s).taken ≡ s
unfolding pipe_write
pipe_write-taken scanner [] h = refl
pipe_write-taken none (c ∷ s) h = cc
pipe_write-taken (some n) (c ∷ s) h = ap (λ t. c ∷ t) (pipe_write-taken (scan_byte n c) s h)

pub relay_once :
    (scanner : Scanner) (chunks : List Text)
    → relay scanner chunks ≡ left (pipe_write scanner (concat chunks))
unfolding relay
relay_once scanner [] = unfold pipe_write in refl
relay_once scanner (chunk ∷ rest) =
    relay_both (pipe_write scanner chunk) (λ after. pipe_write after (concat rest))
      (relay (pipe_write scanner chunk).scanner rest)
      (relay_once (pipe_write scanner chunk).scanner rest)
    ∙ ap left (sym (pipe_write-append scanner chunk (concat rest)))

-- The lines that the scanner reads of what was taken, behind the begun line, are those of the whole.
abbrev pub SameLines : Text → Text → Type 0
SameLines line s =
    take_short (raw_lines line (pipe_write (some (length line)) s).taken)
    ≡ take_short (raw_lines line s)

pub take_short-taken :
    (line : Text) (s : Text)
    → length line < max_token_size
    → take_short (raw_lines line (pipe_write (some (length line)) s).taken)
      ≡ take_short (raw_lines line s)
unfolding pipe_write raw_lines scan_byte take_short
take_short-taken line [] h = refl
take_short-taken line (c ∷ s) h =
    by_byte (take_short-taken [] s (omega arith)) (take_short-taken (line ++ c ∷ []) s) (c == b'\n')
      (ltb (length line + 1) max_token_size) refl refl
  where
    begun : length (line ++ c ∷ []) ≡ length line + 1
    begun = length-append line (c ∷ [])

    by_byte :
        SameLines [] s
        → (length (line ++ c ∷ []) < max_token_size → SameLines (line ++ c ∷ []) s)
        → (newline fits : Bool) → (ltb (length line + 1) max_token_size) ≡ fits
        → (c == b'\n') ≡ newline
        → take_short (
            raw_lines line (
              c
              ∷ (pipe_write
                  (if newline then some 0 else if fits then some (length line + 1) else none)
                  s).taken))
          ≡ take_short (raw_lines line (c ∷ s))
    by_byte new more true fits e' e =
        rw (e, raw_lines)
          (ap (λ (ls : List Text). if ltb (length line) max_token_size then line ∷ ls else []) new)
    by_byte new more false true e' e =
        rw (e, raw_lines)
          (subst
            (λ n.
              take_short (raw_lines (line ++ c ∷ []) (pipe_write (some n) s).taken)
              ≡ take_short (raw_lines (line ++ c ∷ []) s))
            begun (more (ground (arith, begun))))
    by_byte new more false false e' e =
        rw (e, raw_lines)
          (take_short-full (line ++ c ∷ []) (pipe_write none s).taken (ground (arith, begun))
            ∙ sym (take_short-full (line ++ c ∷ []) s (ground (arith, begun))))
