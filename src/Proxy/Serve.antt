-- ===== src/Proxy/Serve.antt =====
-- A request on a registered route: authInterceptor, and handleReverseProxy up to the point where
-- the request goes upstream, in internal/proxy/proxy.go.
-- `prepared` is the outgoing request that httputil.ReverseProxy hands to Rewrite.
use ai_local.Prelude.{
  Bool, List, Option, Result, Text, err, if◌then◌else◌, lookup, none, ok, some, ℕ,
}
use ai_local.Apml.{ApmlConfig, ProviderConfig, RouteConfig}
use ai_local.Apml.Validate.{is_empty}
use ai_local.Json.{JsonGet}
use ai_local.Keystore.{Store}
use ai_local.Usage.Tables.{Database, Time}
use ai_local.Proxy.Headers.{Header}
use ai_local.Proxy.Auth.{Request, Session, Refusal, auth_interceptor}
use ai_local.Proxy.Rewrite.{Url, Body, bytes, Outgoing, JsonSet, rewrite}
use ai_local.Proxy.Respond.{bytes_of}

pub record Arrival : Type 0 where
  pub headers : Header
  pub body : Body
  pub client_ip : Text
  pub any : Text
  pub prepared : Outgoing

-- A request that waits for its response.
pub record Flight : Type 0 where
  pub session : Session
  pub path : Text
  pub provider : ProviderConfig
  pub streaming : Bool
  pub sent : Outgoing

-- No such route, an answer of the interceptor, a panic of the handler, or a request sent upstream.
pub data Served : Type 0 where
  not_found integrity_violation : Served
  refused : Refusal → Served
  forwarded : Flight → Served

abbrev pub request_of : Arrival → Request
request_of a = record { headers = a.headers; body = bytes_of a.body; client_ip = a.client_ip }

-- The body behind the interceptor, which has read it if the route names a quota.
unfoldable pub body_behind : RouteConfig → Body → Body
body_behind route body = if is_empty route.quota then body else bytes (bytes_of body)

module _ (get : JsonGet) (set : JsonSet) (set_url : Url → Url → Url) where
  unfoldable pub forward : ProviderConfig → RouteConfig → Text → Url → Arrival → Session → Flight
  forward provider route path target a s =
      let (sent, streaming) =
        rewrite get set set_url provider s.real_key target a.any a.headers
          (body_behind route a.body) a.prepared in
      record { session = s; path = path; provider = provider; streaming = streaming; sent = sent }

  -- handleReverseProxy, from what the interceptor decided.
  unfoldable pub handle_reverse_proxy :
      Option ProviderConfig → RouteConfig → Text → Url → Arrival → Result Refusal Session → Served
  handle_reverse_proxy provider route path target a (err e) = refused e
  handle_reverse_proxy none route path target a (ok s) = integrity_violation
  handle_reverse_proxy (some provider) route path target a (ok s) =
      forwarded (forward provider route path target a s)

  module _ (sha256 : Text → List ℕ) (daily_fails monthly_fails : Bool) (now : Time)
      (cfg : ApmlConfig) (store : Store) (db : Database) where
    unfoldable pub serve_route : Option RouteConfig → Text → Url → Arrival → Served
    serve_route none path target a = not_found
    serve_route (some route) path target a =
        handle_reverse_proxy (lookup route.provider cfg.providers) route path target a (
          auth_interceptor sha256 get daily_fails monthly_fails now cfg store db path
            (request_of a))

    unfoldable pub serve : Text → Url → Arrival → Served
    serve path target a = serve_route (lookup path cfg.routes) path target a
