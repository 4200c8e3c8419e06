-- ===== src/Proxy/Delivered.antt =====
-- What the tunnel of a streamed response delivers to the client and to the scanner.
use ai_local.Prelude.{
  All, Bool, List, Option, Text, [], ap, arith, false, inl, inr, length, lookup, map, none, refl,
  some, text_eq, true, ◌++◌, ◌∙◌, ◌∷◌, ◌≡◌, ◌≢◌,
}
use ai_local.Apml.{StreamingConfig, EventConfig, ProviderConfig, ApmlConfig, RouteConfig}
use ai_local.Apml.Valid.{ValidStreaming, IsValid}
use ai_local.Usage.Lines.{raw_lines, take_short, scan_lines, drop_cr, max_token_size}
use ai_local.Json.{JsonGet}
use ai_local.Apml.{EventConfig}
use ai_local.Usage.Stream.{
  parse_last_stream, parse_split_events, parse_split_stream, parse_stream_reader,
}
use ai_local.Proxy.Tunnel.{counts, pipe_write, relay, tunnel}
use ai_local.Proxy.Filled.{IsShort, pipe_write_fits, pipe_write-newline, pipe_write_long}
use ai_local.Proxy.Pipe.{
  concat, left, relay_once, take_short-taken, pipe_write-append, pipe_write-taken, ahead, left-both,
}
use mathlib.Core.Path.{ap₂, subst}
use ai_local.Apml.Resolve.{valid_route}

-- The streaming part of a valid configuration sets the scanner to work.
counts_valid : (s : StreamingConfig) → ValidStreaming s → counts (some s) ≡ some 0
unfolding counts text_eq
counts_valid s (inl (m, a, b, c, d)) = rw m refl
counts_valid s (inr (i, o, m, p, q, a, b, c, d, e, f)) = rw (m, p, q) refl

-- What the scanner reads of what was relayed is what it reads of the whole body.
scan_lines-relay :
    (chunks : List Text) → scan_lines (relay (some 0) chunks).0 ≡ scan_lines (concat chunks)
unfolding scan_lines
scan_lines-relay chunks =
    ap (λ (r : Text × Bool). map drop_cr (take_short (raw_lines [] r.0)))
      (relay_once (some 0) chunks)
    ∙ ap (map drop_cr) (take_short-taken [] (concat chunks) (omega arith))

abbrev ended : Text → Bool → Text × Bool
ended body fine = (body, fine)

relay_fits :
    (chunks : List Text)
    → All IsShort (raw_lines [] (concat chunks))
    → relay (some 0) chunks ≡ ended (concat chunks) true
relay_fits chunks a =
    let fine = pipe_write_fits [] (concat chunks) (omega arith) a in
    relay_once (some 0) chunks ∙ ap₂ ended (pipe_write-taken (some 0) (concat chunks) fine) fine

-- The write of complete lines, and of a line that fills the buffer.
relay_long :
    (chunks : List Text) (before long after : Text)
    → concat chunks ≡ (before ++ b'\n' ∷ []) ++ (long ++ after)
    → All IsShort (raw_lines [] (before ++ b'\n' ∷ []))
    → All (λ c. c ≢ b'\n') long
    → length long ≡ max_token_size
    → after ≢ []
    → relay (some 0) chunks ≡ ended ((before ++ b'\n' ∷ []) ++ long) false
relay_long chunks before long after e short line n ne =
    let fine = pipe_write_fits [] (before ++ b'\n' ∷ []) (omega arith) short in
    relay_once (some 0) chunks
    ∙ ap (λ body. left (pipe_write (some 0) body)) e
    ∙ ap left (pipe_write-append (some 0) (before ++ b'\n' ∷ []) (long ++ after))
    ∙ left-both (pipe_write (some 0) (before ++ b'\n' ∷ []))
        (λ behind. pipe_write behind (long ++ after)) (before ++ b'\n' ∷ []) (some 0) fine
        (pipe_write-taken (some 0) (before ++ b'\n' ∷ []) fine)
        (pipe_write-newline (some 0) before fine)
    ∙ ap (ahead (before ++ b'\n' ∷ []))
        (pipe_write_long 0 long after line (omega arith) (omega arith) ne)

module _ (get : JsonGet) where
  parse_split_events-same :
      (i o : Option EventConfig) (s t : Text)
      → scan_lines s ≡ scan_lines t
      → parse_split_events get i o s ≡ parse_split_events get i o t
  unfolding parse_split_events
  parse_split_events-same none o s t e = refl
  parse_split_events-same (some i) none s t e = refl
  parse_split_events-same (some i) (some o) s t e = rw e refl

  parse_stream_reader-same :
      (p : ProviderConfig) (cfg : StreamingConfig) (s t : Text)
      → p.streaming ≡ some cfg
      → scan_lines s ≡ scan_lines t
      → parse_stream_reader get s p ≡ parse_stream_reader get t p
  unfolding parse_stream_reader parse_last_stream parse_split_stream
  parse_stream_reader-same p cfg s t q e =
      rw (q, e, parse_split_events-same cfg.input cfg.output s t e) refl

module _ (cfg : ApmlConfig) (path : Text) (r : RouteConfig) (p : ProviderConfig) where
  -- A provider that a valid configuration routes to.
  abbrev Routed : Type 0
  Routed =
      IsValid cfg × (lookup path cfg.routes ≡ some r) × (lookup r.provider cfg.providers ≡ some p)

  streams : Routed → (s : StreamingConfig) × (p.streaming ≡ some s) × ValidStreaming s
  streams (v, e, f) =
      let (q, u, s, found, a, b, valid) = valid_route cfg path r v e in
      let same : q ≡ p = cc in
      (s, subst (λ (x : ProviderConfig). x.streaming ≡ some s) same b, valid)

  begins : Routed → (chunks : List Text) → tunnel p chunks ≡ relay (some 0) chunks
  unfolding tunnel
  begins h chunks =
      let (s, e, valid) = streams h in
      ap (λ sc. relay sc chunks) (ap counts e ∙ counts_valid s valid)

  -- On a route of a valid configuration, a stream all of whose lines are shorter than 64 KiB reaches
  -- the client whole and without an error of the tunnel, however it is cut into reads.
  pub tunnel_whole :
      (chunks : List Text)
      → IsValid cfg
      → lookup path cfg.routes ≡ some r
      → lookup r.provider cfg.providers ≡ some p
      → All IsShort (raw_lines [] (concat chunks))
      → tunnel p chunks ≡ (concat chunks, true)
  tunnel_whole chunks v e f short = begins (v, e, f) chunks ∙ relay_fits chunks short

  -- On a route of a valid configuration, a line behind complete shorter lines that has no line feed
  -- in its first 65536 bytes cuts the client off, if anything comes behind them: it gets the lines
  -- before and these bytes, and then an error in place of the rest.
  pub tunnel_cut :
      (chunks : List Text) (before long after : Text)
      → IsValid cfg
      → lookup path cfg.routes ≡ some r
      → lookup r.provider cfg.providers ≡ some p
      → concat chunks ≡ (before ++ b'\n' ∷ []) ++ (long ++ after)
      → All IsShort (raw_lines [] (before ++ b'\n' ∷ []))
      → All (λ c. c ≢ b'\n') long
      → length long ≡ max_token_size
      → after ≢ []
      → tunnel p chunks ≡ ((before ++ b'\n' ∷ []) ++ long, false)
  tunnel_cut chunks before long after v e f whole short line n ne =
      begins (v, e, f) chunks ∙ relay_long chunks before long after whole short line n ne

  -- On a route of a valid configuration, the tokens that are counted of what the client got are
  -- those of the whole body, cut off or not.
  pub tunnel_counts :
      (get : JsonGet) (chunks : List Text)
      → IsValid cfg
      → lookup path cfg.routes ≡ some r
      → lookup r.provider cfg.providers ≡ some p
      → parse_stream_reader get (tunnel p chunks).0 p ≡ parse_stream_reader get (concat chunks) p
  tunnel_counts get chunks v e f =
      let (s, q, valid) = streams (v, e, f) in
      ap (λ (t : Text × Bool). parse_stream_reader get t.0 p) (begins (v, e, f) chunks)
      ∙ parse_stream_reader-same get p s (relay (some 0) chunks).0 (concat chunks) q
          (scan_lines-relay chunks)
