-- ===== src/Proxy/Billing.antt =====
-- What a response costs.
use ai_local.Prelude.{
  Bool, Option, Text, arith, false, if◌then◌else◌, inl, inr, lookup, refl, some, true, ℤ, ◌&&◌,
  ◌+64◌, ◌==◌, ◌||◌, ◌≡◌, ◌⊎◌,
}
use ai_local.Apml.{ApmlConfig, UsageConfig, ProviderConfig, RouteConfig, UsageConfig}
use ai_local.Apml.Valid.{IsValid}
use ai_local.Apml.Resolve.{valid_route}
use ai_local.Json.{JsonGet}
use ai_local.Usage.Tables.{Time}
use ai_local.Usage.Stream.{Counts, parse_standard_json, parse_stream_reader}
use ai_local.Proxy.Auth.{Session}
use ai_local.Proxy.Rewrite.{Body, no_body, broken_body, bytes}
use ai_local.Proxy.Respond.{
  Response, Outcome, billed, passed, modify_response, respond_whole, respond_stream, bill, bytes_of,
  usage_record,
}

-- Whether a body can be read to its end.
unfoldable pub can_read : Body → Bool
can_read no_body = true
can_read (broken_body read) = false
can_read (bytes b) = true

-- A success whose body, unless it is streamed, can be read to its end.
unfoldable pub succeeds : Bool → Response → Bool
succeeds streaming res = res.status == 200 && (streaming || can_read res.body)

-- The counts of a response: of the whole stream, or of the body.
abbrev pub counts_for : JsonGet → ProviderConfig → Bool → Body → Option Counts
counts_for get provider true body = some (parse_stream_reader get (bytes_of body) provider)
counts_for get provider false body = parse_standard_json get (bytes_of body) provider

-- The outcome is one record, of the session's local key and client on this route, with the counts
-- of the response and, as Go adds, their sum.
abbrev pub BilledTo :
    JsonGet → ProviderConfig → Session → Text → Time → Bool → Body → Outcome → Type 0
BilledTo get provider s path now streaming body o =
    (prompt completion : ℤ) × (counts_for get provider streaming body ≡ some (prompt, completion))
    × (o
        ≡ billed (record {
          local_key = s.local_key;
          route_path = path;
          client_ip = s.client_ip;
          prompt_tokens = prompt;
          completion_tokens = completion;
          total_tokens = prompt +64 completion;
          created_at = some now;
        }))

module _ (get : JsonGet) (provider : ProviderConfig) (s : Session) (path : Text) (now : Time)
    (u : UsageConfig) (has_usage : provider.usage ≡ some u) where
  standard_billed :
      (body : Body)
      → BilledTo get provider s path now false body
          (bill get s path now (parse_standard_json get (bytes_of body) provider))
  unfolding parse_standard_json usage_record
  standard_billed body = (
    (get (bytes_of body) u.input_tokens).int,
    (get (bytes_of body) u.output_tokens).int,
    rw (has_usage, parse_standard_json) refl,
    rw (has_usage, parse_standard_json) refl,
  )

  modify_response_cases :
      (streaming : Bool) (res : Response)
      → ((succeeds streaming res ≡ true)
          × BilledTo get provider s path now streaming res.body
              (modify_response get provider s path now streaming res))
        ⊎ ((succeeds streaming res ≡ false)
            × (modify_response get provider s path now streaming res ≡ passed))
  unfolding modify_response succeeds can_read respond_stream respond_whole usage_record
  modify_response_cases streaming res = by_parts (res.status == 200) streaming res.body
    where
      by_parts :
          (success stream : Bool) (body : Body)
          → (((success && (stream || can_read body)) ≡ true)
              × BilledTo get provider s path now stream body (
                  if success
                  then if stream
                    then respond_stream get provider s path now (bytes_of body)
                    else respond_whole get provider s path now body
                  else passed))
            ⊎ (((success && (stream || can_read body)) ≡ false)
                × ((if success
                      then if stream
                        then respond_stream get provider s path now (bytes_of body)
                        else respond_whole get provider s path now body
                      else passed)
                    ≡ passed))
      by_parts false stream body = inr (refl, refl)
      by_parts true true body =
          let c = parse_stream_reader get (bytes_of body) provider in
          inl (refl, (c.0, c.1, refl, refl))
      by_parts true false no_body = inl (refl, standard_billed no_body)
      by_parts true false (broken_body read) = inr (refl, refl)
      by_parts true false (bytes b) = inl (refl, standard_billed (bytes b))

-- In a valid configuration, on a configured route, no response makes the proxy panic: a response
-- of status 200 that is streamed, or whose body can be read to its end, leaves one record, which
-- carries the session's local key and client, this route, the moment and the counts of the stream
-- or of the body with their sum; and every other response leaves none.
pub modify_response_bills :
    (get : JsonGet) (c : ApmlConfig) (path : Text) (r : RouteConfig) (provider : ProviderConfig)
    (s : Session) (now : Time) (streaming : Bool) (res : Response)
    → IsValid c
    → lookup path c.routes ≡ some r
    → lookup r.provider c.providers ≡ some provider
    → ((succeeds streaming res ≡ true)
        × BilledTo get provider s path now streaming res.body
            (modify_response get provider s path now streaming res))
      ⊎ ((succeeds streaming res ≡ false)
          × (modify_response get provider s path now streaming res ≡ passed))
modify_response_bills get c path r provider s now streaming res v e p =
    let (q, u, st, found, has_usage, has_stream, rest) = valid_route c path r v e in
    let same : q ≡ provider = ground arith in
    modify_response_cases get provider s path now u (rw (← same) has_usage) streaming res
