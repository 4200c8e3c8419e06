-- ===== src/Proxy/Respond.antt =====
-- The response on its way back: the ModifyResponse function of handleReverseProxy in
-- internal/proxy/proxy.go, and the record that it emits.
-- A streamed body is what its reader gets of it; the record of a stream is emitted when it ends.
use ai_local.Prelude.{Bool, Option, Text, [], if◌then◌else◌, none, some, ℕ, ◌+64◌, ◌==◌}
use ai_local.Apml.{ProviderConfig}
use ai_local.Json.{JsonGet}
use ai_local.Usage.Tables.{Record, Time}
use ai_local.Usage.Stream.{Counts, parse_standard_json, parse_stream_reader}
use ai_local.Usage.Worker.{UsageBackend, emit_non_blocking}
use ai_local.Proxy.Auth.{Session}
use ai_local.Proxy.Rewrite.{Body, no_body, broken_body, bytes}

pub record Response : Type 0 where
  pub status : ℕ
  pub body : Body

-- The record of a response with these counts.
unfoldable pub usage_record : Session → Text → Time → Counts → Record
usage_record s path now (prompt, completion) = record {
  local_key = s.local_key;
  route_path = path;
  client_ip = s.client_ip;
  prompt_tokens = prompt;
  completion_tokens = completion;
  total_tokens = prompt +64 completion;
  created_at = some now;
}

-- What the bytes of a body are, read to the end or to the error: an absent body has none.
abbrev pub bytes_of : Body → Text
bytes_of no_body = []
bytes_of (broken_body read) = read
bytes_of (bytes b) = b

-- What becomes of a response: a panic, no record, or a record.
pub data Outcome : Type 0 where
  panicked passed : Outcome
  billed : Record → Outcome

module _ (get : JsonGet) where
  abbrev pub bill : Session → Text → Time → Option Counts → Outcome
  bill s path now none = panicked
  bill s path now (some c) = billed (usage_record s path now c)

  -- Scenario A, a response in one piece.
  unfoldable pub respond_whole : ProviderConfig → Session → Text → Time → Body → Outcome
  respond_whole provider s path now (broken_body read) = passed
  respond_whole provider s path now no_body = bill s path now (parse_standard_json get [] provider)
  respond_whole provider s path now (bytes b) = bill s path now (parse_standard_json get b provider)

  -- Scenario B, a stream: `read` is what the counting goroutine reads of it.
  unfoldable pub respond_stream : ProviderConfig → Session → Text → Time → Text → Outcome
  respond_stream provider s path now read =
      bill s path now (some (parse_stream_reader get read provider))

  unfoldable pub modify_response :
      ProviderConfig → Session → Text → Time → Bool → Response → Outcome
  modify_response provider s path now streaming res =
      if res.status == 200
      then if streaming
        then respond_stream provider s path now (bytes_of res.body)
        else respond_whole provider s path now res.body
      else passed

  -- The record goes to the backend.
  unfoldable pub settle : Outcome → UsageBackend → UsageBackend
  settle panicked b = b
  settle passed b = b
  settle (billed rec) b = emit_non_blocking rec b
