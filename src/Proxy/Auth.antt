-- ===== src/Proxy/Auth.antt =====
-- authInterceptor of internal/proxy/proxy.go, which every proxied request passes first.
-- The answer to a refused request is in Answer. The key store, the usage database and the configuration are
-- arguments; so are the digest of the key store, gjson, the clock and the failures of the two
-- quota queries.
use ai_local.Prelude.{
  Bool, List, Option, Result, Text, [], codes, equal_fold, err, fields, has_prefix, if◌then◌else◌,
  lookup, none, not, ok, pos, some, text_eq, to_lower, ℕ, ◌&&◌, ◌>>=◌, ◌>>◌, ◌∷◌,
}
use ai_local.Apml.{ApmlConfig, RouteConfig, ProviderConfig, QuotaDetail}
use ai_local.Apml.Validate.{is_empty}
use ai_local.Json.{JsonGet}
use ai_local.Keystore.{KeyRecord, Store, get_key_by_internal}
use ai_local.Usage.Tables.{Time, Database}
use ai_local.Usage.Quota.{quota_check, DenyReason}
use ai_local.Proxy.Headers.{Header, header_get}

pub record Request : Type 0 where
  pub headers : Header
  pub body : Text
  pub client_ip : Text

-- What the interceptor hands to the handler through the request's context.
pub record Session : Type 0 where
  pub real_key : Text
  pub local_key : Text
  pub client_ip : Text
  pub alias : Text

-- An aborted request: 401 in three ways, or 429.
pub data Refusal : Type 0 where
  malformed_custom_header : Text → Refusal
  malformed_bearer : Refusal
  invalid_key : Refusal
  quota_exceeded : DenyReason → Refusal

abbrev pub status_of : Refusal → ℕ
status_of (quota_exceeded r) = 429
status_of _ = 401

-- A key missing from a Go map gives the zero value.
abbrev pub zero_route : RouteConfig
zero_route = record { provider = []; quota = [] }

abbrev pub zero_provider : ProviderConfig
zero_provider = record {
  host = [];
  api_key_prefix = [];
  input_message = [];
  usage = none;
  streaming = none;
}

abbrev pub zero_quota : QuotaDetail
zero_quota = record { mode = []; daily = pos 0; monthly = pos 0 }

abbrev pub or_zero {ℓ} : {A : Type ℓ} → A → Option A → A
or_zero z none = z
or_zero z (some a) = a

-- Whether the provider asks for a header of its own.
unfoldable pub is_custom_header : Text → Bool
is_custom_header prefix =
    not (is_empty prefix) && not (has_prefix (to_lower prefix) (codes "authorization:"))

-- The key in a header of the provider's own: the only word.
unfoldable pub custom_key : Text → List Text → Result Refusal Text
custom_key name (key ∷ []) = ok key
custom_key name _ = err (malformed_custom_header name)

-- The key behind `Bearer`.
unfoldable pub bearer_key : List Text → Result Refusal Text
bearer_key (scheme ∷ key ∷ []) =
    if equal_fold scheme (codes "bearer") then ok key else err malformed_bearer
bearer_key _ = err malformed_bearer

unfoldable pub local_key_of : ProviderConfig → Request → Result Refusal Text
local_key_of provider req =
    if is_custom_header provider.api_key_prefix
    then custom_key provider.api_key_prefix
        (fields (header_get provider.api_key_prefix req.headers))
    else bearer_key (fields (header_get (codes "Authorization") req.headers))

-- The record of a key, if it is for this route.
unfoldable pub credential : Text → Option KeyRecord → Result Refusal KeyRecord
credential route_path none = err invalid_key
credential route_path (some r) = if text_eq r.route route_path then ok r else err invalid_key

module _ (sha256 : Text → List ℕ) (get : JsonGet) (daily_fails monthly_fails : Bool)
    (now : Time) where
  -- The quota step: none named, or the check of the named one.
  unfoldable pub quota_step :
      ApmlConfig
      → Database
      → RouteConfig
      → Text
      → Text
      → Text
      → ProviderConfig
      → Result Refusal (Unit {0})
  quota_step cfg db route local_key route_path body provider =
      if is_empty route.quota
      then ok tt
      else let quota = or_zero zero_quota (lookup route.quota cfg.quotas) in
        let result =
          quota_check get daily_fails monthly_fails db now local_key route_path quota body
            (some provider) in
        if result.allowed then ok tt else err (quota_exceeded result.deny_reason)

  unfoldable pub auth_interceptor :
      ApmlConfig → Store → Database → Text → Request → Result Refusal Session
  auth_interceptor cfg store db route_path req =
      let route = or_zero zero_route (lookup route_path cfg.routes) in
      let provider = or_zero zero_provider (lookup route.provider cfg.providers) in
      do
        local_key ← local_key_of provider req
        r ← credential route_path (get_key_by_internal sha256 local_key store)
        quota_step cfg db route local_key route_path req.body provider
        ok (record {
          real_key = r.real_key;
          local_key = local_key;
          client_ip = req.client_ip;
          alias = r.alias;
        })
