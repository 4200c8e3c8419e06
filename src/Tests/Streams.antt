-- ===== src/Tests/Streams.antt =====
-- Streams of an upstream, under a gjson that knows three paths.
use ai_local.Prelude.{
  All, Text, [], ap, arith, codes, false, has_prefix, length, none, pos, refl, some, suc, text_eq,
  trim_space, true, zero, ℕ, ◌++◌, ◌∷◌, ◌≡◌, ◌≢◌,
}
use ai_local.Apml.{StreamingConfig, EventConfig, split, last, ProviderConfig}
use ai_local.Json.{JsonGet, JsonResult}
use ai_local.Usage.Lines.{scan_lines, max_token_size}
use ai_local.Usage.Counting.{
  parse_last_stream_lem, parse_split_stream_lem, field_at, last_match, or_default, payloads,
  typed_field,
}
use ai_local.Usage.LongLines.{long_line_stops}
use ai_local.Apml.{ProviderConfig}
use ai_local.Usage.Stream.{
  parse_stream_reader, parse_last_stream, parse_split_stream, extract_sse_data,
}

abbrev no_result : JsonResult
no_result = record { exists = false; raw = []; int = pos 0; string = []; bool = false }

-- The value at any path is the number of bytes of the body.
abbrev test_get : JsonGet
test_get body path = record no_result { exists = true; int = pos (length body); string = path }

abbrev last_config : StreamingConfig
last_config = record {
  mode = last;
  input_tokens = codes "usage.prompt_tokens";
  output_tokens = [];
  input = none;
  output = none;
  request_option = [];
}

abbrev start_event : EventConfig
start_event = record { chunk_type = codes "type"; input_tokens = codes "in"; output_tokens = [] }

abbrev end_event : EventConfig
end_event = record { chunk_type = codes "other"; input_tokens = []; output_tokens = codes "out" }

abbrev split_config : StreamingConfig
split_config = record {
  mode = split;
  input_tokens = [];
  output_tokens = [];
  input = some start_event;
  output = some end_event;
  request_option = [];
}

abbrev stream : Text
stream = codes "data: {}" ++ b'\n' ∷ codes "data: {aa}" ++ b'\n' ∷ codes "data: [DONE]"

last_wins : parse_last_stream test_get stream last_config ≡ (pos 4, pos 0)
unfolding parse_last_stream scan_lines extract_sse_data has_prefix trim_space text_eq
last_wins = refl

parse_last_stream_example : parse_last_stream test_get stream last_config ≡ (
  or_default
      (pos 0)
      (last_match (field_at test_get (codes "usage.prompt_tokens")) (payloads (scan_lines stream))),
  or_default (pos 0) (last_match (field_at test_get []) (payloads (scan_lines stream))),
)
parse_last_stream_example = parse_last_stream_lem test_get stream last_config

parse_split_stream_example : parse_split_stream test_get stream split_config ≡ (
  or_default (pos 0) (
      last_match (typed_field test_get (codes "type") (codes "in")) (payloads (scan_lines stream))),
  or_default (pos 0) (
      last_match
        (typed_field test_get (codes "other") (codes "out"))
        (payloads (scan_lines stream))),
)
parse_split_stream_example =
    parse_split_stream_lem test_get stream split_config start_event end_event refl refl

-- n letters
pub letters : ℕ → Text
letters zero = []
letters (suc n) = b'a' ∷ letters n

pub letters_on_one_line : (n : ℕ) → All (λ c. c ≢ b'\n') (letters n)
unfolding letters
letters_on_one_line zero = tt
letters_on_one_line (suc n) = (omega arith, letters_on_one_line n)

pub length-letters : (n : ℕ) → length (letters n) ≡ n
unfolding letters
length-letters zero = refl
length-letters (suc n) = ap suc (length-letters n)

-- A provider whose tokens are counted in this way.
abbrev counted_by : StreamingConfig → ProviderConfig
counted_by c = record {
  host = [];
  api_key_prefix = [];
  input_message = [];
  usage = none;
  streaming = some c;
}

long_line_stops_example :
    parse_stream_reader test_get
      (codes "data: {}" ++ b'\n' ∷ (letters max_token_size ++ stream))
      (counted_by split_config)
    ≡ parse_stream_reader test_get (codes "data: {}" ++ b'\n' ∷ []) (counted_by split_config)
long_line_stops_example =
    long_line_stops test_get (counted_by split_config) (codes "data: {}") (letters max_token_size)
      stream (letters_on_one_line max_token_size) (omega (arith, length-letters max_token_size))
