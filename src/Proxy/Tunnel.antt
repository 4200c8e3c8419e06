-- ===== src/Proxy/Tunnel.antt =====
-- The tunnel of a streamed response: Scenario B of ModifyResponse in internal/proxy/proxy.go, where
-- an io.TeeReader copies what the client reads into an io.Pipe, which a goroutine reads with the
-- scanner of internal/usage/parser.go.
-- A write to the pipe waits until its bytes are read, and fails if the reader is closed before; a
-- failed write is an error of the TeeReader's read, which gives the bytes that were taken.
use ai_local.Prelude.{
  Bool, List, Option, Text, [], false, if◌then◌else◌, ltb, none, some, text_eq, true, ℕ, ◌++◌, ◌+◌,
  ◌==◌, ◌∷◌,
}
use ai_local.Apml.{EventConfig, ProviderConfig, StreamingConfig, split, last}
use ai_local.Usage.Lines.{max_token_size}

-- The scanner's end of the pipe: the length of the line that it has begun, or `none` when it is
-- closed.
abbrev pub Scanner : Type 0
Scanner = Option ℕ

-- One more byte: a line that fills the buffer ends the scan, and the pipe's reader is closed.
unfoldable pub scan_byte : ℕ → ℕ → Scanner
scan_byte n c =
    if c == b'\n' then some 0 else if ltb (n + 1) max_token_size then some (n + 1) else none

-- What a write leaves: the scanner, the bytes that were taken, and whether all of them were.
pub record Write : Type 0 where
  pub scanner : Scanner
  pub taken : Text
  pub complete : Bool

abbrev pub taken_one : ℕ → Write → Write
taken_one c w = record w { taken = c ∷ w.taken }

-- pw.Write
unfoldable pub pipe_write : Scanner → Text → Write
pipe_write scanner [] = record { scanner = scanner; taken = []; complete = true }
pipe_write none (c ∷ s) = record { scanner = none; taken = []; complete = false }
pipe_write (some n) (c ∷ s) = taken_one c (pipe_write (scan_byte n c) s)

-- What the client gets of the reads of the upstream body, and whether the tunnel adds no error.
unfoldable pub relay : Scanner → List Text → Text × Bool
relay scanner [] = ([], true)
relay scanner (chunk ∷ rest) =
    let w = pipe_write scanner chunk in
    let behind = relay w.scanner rest in
    if w.complete then (w.taken ++ behind.0, behind.1) else (w.taken, false)

abbrev pub counts_split : Option EventConfig → Option EventConfig → Scanner
counts_split none output = none
counts_split (some input) none = none
counts_split (some input) (some output) = some 0

abbrev pub counts_mode : StreamingConfig → Scanner
counts_mode cfg =
    if text_eq cfg.mode split
    then counts_split cfg.input cfg.output
    else if text_eq cfg.mode last
    then some 0
    else none

-- ParseStreamReader at its start: it returns at once where it has nothing to count.
unfoldable pub counts : Option StreamingConfig → Scanner
counts none = none
counts (some cfg) = counts_mode cfg

unfoldable pub tunnel : ProviderConfig → List Text → Text × Bool
tunnel provider chunks = relay (counts provider.streaming) chunks
