-- ===== src/Usage/Counting.antt =====
-- What the stream parsers count.
use ai_local.Prelude.{
  List, Option, Option-cases, Text, [], arith, codes, if◌then◌else◌, inl, inr, none, not, pos, refl,
  some, text_eq, ℤ, ◌&&◌, ◌∷◌, ◌≡◌,
}
use mathlib.Core.Path.{ap₂}
use ai_local.Apml.Validate.{is_empty}
use ai_local.Json.{JsonGet}
use ai_local.Usage.Stream.{
  extract_sse_data, Counts, each_chunk, last_chunk, last_field, parse_last_stream,
  parse_split_events, parse_split_stream, split_chunk,
}
use ai_local.Apml.{StreamingConfig, EventConfig}
use ai_local.Usage.Lines.{scan_lines}

-- The payloads of the lines that are read, in order.
pub payloads : List Text → List Text
payloads [] = []
payloads (line ∷ rest) = elim (extract_sse_data line) [
  | none ↦ payloads rest
  | some json ↦ json ∷ payloads rest
]

-- The value that `pick` finds in the last item where it finds one.
pub last_match : (Text → Option ℤ) → List Text → Option ℤ
last_match pick [] = none
last_match pick (json ∷ rest) = elim (last_match pick rest) [ none ↦ pick json | some n ↦ some n ]

abbrev pub or_default : ℤ → Option ℤ → ℤ
or_default n none = n
or_default n (some m) = m

module _ (get : JsonGet) where
  -- The value at a path, if the path is given and there is one.
  abbrev pub field_at : Text → Text → Option ℤ
  field_at path json =
      if is_empty path
      then none
      else if (get json path).exists
      then some (get json path).int
      else none

  -- The value at a path, in a chunk of a type.
  abbrev pub typed_field : Text → Text → Text → Option ℤ
  typed_field type path json =
      if text_eq (get json (codes "type")).string type && not (is_empty path)
      then some (get json path).int
      else none

overwrite :
    (n : ℤ) (a b : Option ℤ)
    → or_default (or_default n a) b ≡ or_default n (elim b [ none ↦ a | some m ↦ some m ])
overwrite n a none = refl
overwrite n a (some m) = refl

-- The loop, for a chunk function that overwrites each counter by what `f` and `g` find.
loop_last :
    (chunk : Text → Counts → Counts) (f g : Text → Option ℤ)
    → ((json : Text) (i o : ℤ) → chunk json (i, o) ≡ (or_default i (f json), or_default o (g json)))
    → (lines : List Text) (i o : ℤ)
    → each_chunk chunk lines (i, o)
      ≡ (or_default i (last_match f (payloads lines)), or_default o (last_match g (payloads lines)))
unfolding each_chunk payloads last_match
loop_last chunk f g same [] i o = refl
loop_last chunk f g same (line ∷ rest) i o = elim (Option-cases (extract_sse_data line)) [
  | inl e ↦ rw (e, payloads) (loop_last chunk f g same rest i o)
  | inr (json, e) ↦
      rw (e, payloads)
        (rw (same json i o) (
          rw (loop_last chunk f g same rest (or_default i (f json)) (or_default o (g json))) (
            ap₂ (λ (x y : ℤ). (x, y)) (overwrite i (f json) (last_match f (payloads rest)))
              (overwrite o (g json) (last_match g (payloads rest))))))
]

module _ (get : JsonGet) where
  -- In mode `last` each counter is the value at its path in the last chunk that has one, and 0 if
  -- no chunk has one.
  pub parse_last_stream_lem :
      (stream : Text) (cfg : StreamingConfig)
      → let chunks = payloads (scan_lines stream) in
        parse_last_stream get stream cfg ≡ (
          or_default (pos 0) (last_match (field_at get cfg.input_tokens) chunks),
          or_default (pos 0) (last_match (field_at get cfg.output_tokens) chunks),
        )
  unfolding parse_last_stream
  parse_last_stream_lem stream cfg =
      loop_last (last_chunk get cfg) (field_at get cfg.input_tokens)
        (field_at get cfg.output_tokens) (λ json i o. unfold last_chunk last_field in ground arith)
        (scan_lines stream) (pos 0) (pos 0)

  -- In mode `split` each counter is the value at its path in the last chunk of its type, and 0 if
  -- there is no such chunk.
  pub parse_split_stream_lem :
      (stream : Text) (cfg : StreamingConfig) (input output : EventConfig)
      → cfg.input ≡ some input
      → cfg.output ≡ some output
      → let chunks = payloads (scan_lines stream) in
        parse_split_stream get stream cfg ≡ (
          or_default
              (pos 0)
              (last_match (typed_field get input.chunk_type input.input_tokens) chunks),
          or_default
              (pos 0)
              (last_match (typed_field get output.chunk_type output.output_tokens) chunks),
        )
  unfolding parse_split_stream parse_split_events
  parse_split_stream_lem stream cfg input output p q =
      rw (p, q)
        (loop_last (split_chunk get input output)
          (typed_field get input.chunk_type input.input_tokens)
          (typed_field get output.chunk_type output.output_tokens)
          (λ json i o. unfold split_chunk in ground arith) (scan_lines stream) (pos 0) (pos 0))
