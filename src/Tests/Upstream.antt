-- ===== src/Tests/Upstream.antt =====
-- A request of a client on its way upstream to a provider with a header of its own, and back.
use ai_local.Prelude.{
  Text, [], arith, codes, equal_fold, false, has_prefix, inl, insert, lookup, none, pos, refl, some,
  text_eq, text_eq_iff, true, ◌∷◌, ◌≡◌, ◌≢◌, ◌⊎◌,
}
use ai_local.Apml.{ProviderConfig}
use ai_local.Json.{JsonGet}
use ai_local.Usage.Tables.{Time}
use ai_local.Proxy.Headers.{header_set, Header, header_values, canonical}
use ai_local.Proxy.Auth.{Session}
use ai_local.Proxy.Gate.{route_at, provider_at}
use ai_local.Proxy.Rewrite.{
  set_key, Url, bytes, Outgoing, JsonSet, rewrite, target_text, is_skipped,
}
use ai_local.Proxy.Respond.{Response, modify_response, passed}
use ai_local.Proxy.Upstream.{IsApart, IsPassedOver, rewrite_key, rewrite_keeps}
use ai_local.Proxy.Billing.{modify_response_bills, BilledTo, succeeds}
use ai_local.Tests.Config.{gateway, gateway-IsValid}

abbrev provider : ProviderConfig
provider = record {
  host = codes "api.anthropic.com";
  api_key_prefix = codes "X-API-Key";
  input_message = [];
  usage = none;
  streaming = none;
}

abbrev pub nothing_found : JsonGet
nothing_found body path = record {
  exists = false;
  raw = [];
  int = pos 0;
  string = [];
  bool = false;
}

abbrev unchanged : JsonSet
unchanged body path value = body

abbrev target : Url
target = record { host = codes "api.anthropic.com"; path = []; others = codes "https" }

abbrev incoming : Header
incoming = (codes "Authorization", codes "Bearer mine" ∷ []) ∷ []

abbrev prepared : Outgoing
prepared = record {
  headers = incoming;
  url = record { host = []; path = codes "/claude/v1"; others = [] };
  host = [];
  body = bytes (codes "{}");
  content_length = 2;
}

differ : (s t : Text) → text_eq s t ≡ false → s ≢ t
differ s t e p = ground (arith, text_eq_iff s t)

key-IsApart : IsApart (codes "X-API-Key")
unfolding canonical text_eq
key-IsApart = record {
  host = differ _ _ refl;
  content_length = differ _ _ refl;
  content_type = differ _ _ refl;
  accept_encoding = differ _ _ refl;
}

pub authorization-IsApart : IsApart (codes "Authorization")
unfolding canonical text_eq
authorization-IsApart = record {
  host = differ _ _ refl;
  content_length = differ _ _ refl;
  content_type = differ _ _ refl;
  accept_encoding = differ _ _ refl;
}

two_headers : canonical (codes "X-API-Key") ≢ canonical (codes "Authorization")
unfolding canonical text_eq
two_headers = differ _ _ refl

incoming-IsPassedOver : IsPassedOver (codes "Authorization") (codes "X-API-Key") incoming
unfolding is_skipped equal_fold text_eq
incoming-IsPassedOver = (inl refl, tt)

rewrite_key_example :
    header_values
      (codes "X-API-Key")
      (rewrite nothing_found unchanged
        (λ t o. t)
        provider
        (codes "sk-real")
        target
        (codes "/v1")
        incoming
        (bytes (codes "{}"))
        prepared).0.headers
    ≡ codes "sk-real" ∷ []
unfolding text_eq
rewrite_key_example =
    rewrite_key nothing_found unchanged (λ t o. t) provider (codes "sk-real") target (codes "/v1")
      incoming (bytes (codes "{}")) prepared key-IsApart

-- The key that the client holds goes upstream.
rewrite_keeps_example :
    header_values
      (codes "Authorization")
      (rewrite nothing_found unchanged
        (λ t o. t)
        provider
        (codes "sk-real")
        target
        (codes "/v1")
        incoming
        (bytes (codes "{}"))
        prepared).0.headers
    ≡ codes "Bearer mine" ∷ []
unfolding text_eq header_values lookup canonical
rewrite_keeps_example =
    rewrite_keeps nothing_found unchanged (λ t o. t) provider (codes "sk-real") target (codes "/v1")
      (codes "Authorization") incoming (bytes (codes "{}")) prepared authorization-IsApart
      two_headers incoming-IsPassedOver

-- A host without a scheme takes the scheme of the base URI.
completed : target_text (codes "http://localhost") (codes "127.0.0.1") ≡ codes "http://127.0.0.1"
unfolding target_text has_prefix
completed = refl

abbrev noon : Time
noon = record { year = 2026; month = 7; day = 1; nanos = 0 }

abbrev session : Session
session = record {
  real_key = codes "sk-real";
  local_key = codes "sk-local-01";
  client_ip = codes "10.0.0.1";
  alias = codes "team";
}

abbrev fine : Response
fine = record { status = 200; body = bytes (codes "{}") }

abbrev pub claude_of_gateway : ProviderConfig
claude_of_gateway = provider_at gateway (codes "/claude")

pub route_found :
    lookup (codes "/claude") gateway.routes ≡ some (route_at gateway (codes "/claude"))
unfolding lookup text_eq
route_found = refl

pub provider_found :
    lookup (route_at gateway (codes "/claude")).provider gateway.providers ≡ some claude_of_gateway
unfolding lookup text_eq
provider_found = refl

modify_response_bills_example :
    ((succeeds false fine ≡ true)
      × BilledTo nothing_found claude_of_gateway session (codes "/claude") noon false fine.body (
          modify_response nothing_found claude_of_gateway session
            (codes "/claude")
            noon
            false
            fine))
    ⊎ ((succeeds false fine ≡ false)
        × (modify_response nothing_found claude_of_gateway session (codes "/claude") noon false fine
            ≡ passed))
modify_response_bills_example =
    modify_response_bills nothing_found gateway (codes "/claude")
      (route_at gateway (codes "/claude")) claude_of_gateway session noon false fine gateway-IsValid
      route_found provider_found

-- A prefix that begins with the name of the header is no header name: the bearer is not set.
bearer_prefix :
    header_values
      (codes "Authorization")
      (set_key (codes "Authorization: Bearer") (codes "sk-real") [])
    ≡ []
unfolding header_values set_key header_set canonical lookup insert text_eq
bearer_prefix = refl
