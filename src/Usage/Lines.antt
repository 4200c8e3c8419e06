-- ===== src/Usage/Lines.antt =====
-- The lines that bufio.Scanner gives of a stream: split at line feeds, without a carriage return
-- at the end of a line, up to the first line that does not fit its buffer of 64 KiB.
-- A stream that breaks off is its bytes up to there.
use ai_local.Prelude.{
  List, Text, [], false, if◌then◌else◌, length, ltb, map, true, ℕ, ◌++◌, ◌==◌, ◌∷◌,
}

-- What stands after the last line feed, unless it is empty.
abbrev pub final_line : Text → List Text
final_line [] = []
final_line (c ∷ s) = (c ∷ s) ∷ []

-- The lines with their line feeds cut off.
unfoldable pub raw_lines : Text → Text → List Text
raw_lines line [] = final_line line
raw_lines line (c ∷ s) = elim (c == b'\n') [
  | true ↦ line ∷ raw_lines [] s
  | false ↦ raw_lines (line ++ c ∷ []) s
]

unfoldable pub drop_cr : Text → Text
drop_cr [] = []
drop_cr (c ∷ []) = if c == b'\r' then [] else c ∷ []
drop_cr (c ∷ d ∷ s) = c ∷ drop_cr (d ∷ s)

abbrev pub max_token_size : ℕ
max_token_size = 65536

-- Scan stops for good at a line that fills the buffer.
unfoldable pub take_short : List Text → List Text
take_short [] = []
take_short (line ∷ rest) = if ltb (length line) max_token_size then line ∷ take_short rest else []

unfoldable pub scan_lines : Text → List Text
unfolding raw_lines drop_cr take_short
scan_lines s = map drop_cr (take_short (raw_lines [] s))
