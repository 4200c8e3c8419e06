-- ===== src/Usage/Stream.antt =====
-- internal/usage/parser.go: token counts from responses. gjson is the parameter `get`; `none` is
-- the panic on a nil pointer.
use ai_local.Prelude.{
  List, Option, Text, [], codes, drop, has_prefix, if◌then◌else◌, length, none, not, pos, some,
  text_eq, trim_space, ℤ, ◌&&◌, ◌||◌, ◌∷◌,
}
use ai_local.Apml.{ProviderConfig, split, last, EventConfig, StreamingConfig}
use ai_local.Apml.Validate.{is_empty}
use ai_local.Json.{JsonGet}
use ai_local.Usage.Lines.{scan_lines}

-- `data: `, with its space
abbrev pub data_prefix : Text
data_prefix = codes "data: "

abbrev pub done_payload : Text
done_payload = codes "[DONE]"

-- The payload of a data line, trimmed, if it is to be read.
unfoldable pub payload_of : Text → Option Text
payload_of payload = if is_empty payload || text_eq payload done_payload then none else some payload

unfoldable pub extract_sse_data : Text → Option Text
unfolding payload_of
extract_sse_data line =
    if not (has_prefix line data_prefix)
    then none
    else payload_of (trim_space (drop (length data_prefix) line))

-- The two counters of a stream, input tokens first.
abbrev pub Counts : Type 0
Counts = ℤ × ℤ

-- `for scanner.Scan()`: a line with no payload is passed over.
unfoldable pub each_chunk : (Text → Counts → Counts) → List Text → Counts → Counts
each_chunk chunk [] c = c
each_chunk chunk (line ∷ rest) c =
    each_chunk chunk rest (elim (extract_sse_data line) [ none ↦ c | some json ↦ chunk json c ])

module _ (get : JsonGet) where
  unfoldable pub parse_standard_json : Text → ProviderConfig → Option Counts
  parse_standard_json body provider = elim provider.usage [
    | none ↦ none
    | some u ↦ some ((get body u.input_tokens).int, (get body u.output_tokens).int)
  ]

  -- One round of the loop of parseSplitStream, on the JSON of a chunk.
  unfoldable pub split_chunk : EventConfig → EventConfig → Text → Counts → Counts
  split_chunk input output json (i, o) =
      let chunk_type = (get json (codes "type")).string in
      (
        if text_eq chunk_type input.chunk_type && not (is_empty input.input_tokens)
            then (get json input.input_tokens).int
            else i,
        if text_eq chunk_type output.chunk_type && not (is_empty output.output_tokens)
            then (get json output.output_tokens).int
            else o,
      )

  -- One counter of parseLastStream: an existing field overwrites it.
  unfoldable pub last_field : Text → Text → ℤ → ℤ
  last_field path json n =
      if is_empty path then n else if (get json path).exists then (get json path).int else n

  unfoldable pub last_chunk : StreamingConfig → Text → Counts → Counts
  unfolding last_field
  last_chunk cfg json (i, o) =
      (last_field cfg.input_tokens json i, last_field cfg.output_tokens json o)

  unfoldable pub parse_split_events : Option EventConfig → Option EventConfig → Text → Counts
  unfolding each_chunk split_chunk
  parse_split_events none output stream = (pos 0, pos 0)
  parse_split_events (some input) none stream = (pos 0, pos 0)
  parse_split_events (some input) (some output) stream =
      each_chunk (split_chunk input output) (scan_lines stream) (pos 0, pos 0)

  unfoldable pub parse_split_stream : Text → StreamingConfig → Counts
  unfolding parse_split_events
  parse_split_stream stream cfg = parse_split_events cfg.input cfg.output stream

  unfoldable pub parse_last_stream : Text → StreamingConfig → Counts
  unfolding each_chunk last_chunk
  parse_last_stream stream cfg = each_chunk (last_chunk cfg) (scan_lines stream) (pos 0, pos 0)

  unfoldable pub parse_stream_reader : Text → ProviderConfig → Counts
  parse_stream_reader stream provider = elim provider.streaming [
    | none ↦ (pos 0, pos 0)
    | some cfg ↦
        if text_eq cfg.mode split
        then parse_split_stream stream cfg
        else if text_eq cfg.mode last
        then parse_last_stream stream cfg
        else (pos 0, pos 0)
  ]
