-- ===== src/Proxy/Rewrite.antt =====
-- The request on its way upstream: buildTargetURL, setupRoutes, executeMergeOptionsInline and the
-- Rewrite function of handleReverseProxy in internal/proxy/proxy.go.
-- net/url, sjson and httputil.ReverseProxy are parameters. Of a URL only the host and the path
-- matter, `others` is the rest; the outgoing request is the one that ReverseProxy has prepared.
use ai_local.Prelude.{
  Bool, List, Map, Option, Result, Text, [], codes, equal_fold, err, false, has_prefix,
  if◌then◌else◌, length, lookup, none, not, ok, some, text_eq, values, ℕ, ◌&&◌, ◌++◌, ◌>>=◌, ◌||◌,
  ◌∷◌,
}
use ai_local.Apml.{ApmlConfig, ProviderConfig, RouteConfig, StreamingConfig, OptionValue}
use ai_local.Json.{JsonGet}
use ai_local.Usage.Stats.{decimal}
use ai_local.Proxy.Headers.{Header, header_add, header_set, header_del}
use ai_local.Proxy.Auth.{or_zero, zero_provider}

pub record Url : Type 0 where
  pub host : Text
  pub path : Text
  pub others : Text

-- The text that buildTargetURL has parsed.
unfoldable pub target_text : Text → Text → Text
target_text base_uri host =
    if has_prefix host (codes "http://") || has_prefix host (codes "https://")
    then host
    else let scheme =
        if has_prefix base_uri (codes "http://") then codes "http://" else codes "https://" in
      scheme ++ host

module _ (parse_url : Text → Option Url) where
  unfoldable pub build_target_url : Text → Text → Option Url
  build_target_url base_uri host = parse_url (target_text base_uri host)

  -- The routes that are registered with their targets, or the path of one whose host is no URL.
  unfoldable pub setup_entries : ApmlConfig → Map RouteConfig → Result Text (Map Url)
  setup_entries cfg [] = ok []
  setup_entries cfg ((path, route) ∷ routes) =
      let provider = or_zero zero_provider (lookup route.provider cfg.providers) in
      let rest = setup_entries cfg routes in
      elim (build_target_url cfg.base_uri provider.host) [
        | none ↦ err path
        | some target ↦ rest >>= λ entries. ok ((path, target) ∷ entries)
      ]

  unfoldable pub setup_routes : ApmlConfig → Result Text (Map Url)
  setup_routes cfg = setup_entries cfg cfg.routes

-- A body that is nil or NoBody, one that breaks off with an error behind some bytes, or its bytes.
pub data Body : Type 0 where
  no_body : Body
  broken_body bytes : Text → Body

pub record Outgoing : Type 0 where
  pub headers : Header
  pub url : Url
  pub host : Text
  pub body : Body
  pub content_length : ℕ

-- The headers of the request that came in which the loop passes over.
unfoldable pub is_skipped : Text → Text → Bool
is_skipped prefix key =
    equal_fold key (codes "Authorization")
    || (equal_fold key (codes "Host") || (not (text_eq prefix []) && equal_fold key prefix))

-- for _, val := range values { r.Out.Header.Add(key, val) }
unfoldable pub add_values : Text → List Text → Header → Header
add_values key [] out = out
add_values key (val ∷ values) out = add_values key values (header_add key val out)

unfoldable pub copy_headers : Text → Header → Header → Header
copy_headers prefix [] out = out
copy_headers prefix ((key, values) ∷ rest) out =
    copy_headers prefix rest (if is_skipped prefix key then out else add_values key values out)

-- The name and the value of the header with the upstream key.
abbrev pub key_header : Text → Text
key_header prefix = if text_eq prefix [] then codes "Authorization" else prefix

abbrev pub key_value : Text → Text → Text
key_value prefix real_key = if text_eq prefix [] then codes "Bearer " ++ real_key else real_key

unfoldable pub set_key : Text → Text → Header → Header
set_key prefix real_key out = header_set (key_header prefix) (key_value prefix real_key) out

-- sjson.SetBytes on the JSON text of a value, whose error is not looked at.
abbrev pub JsonSet : Type 0
JsonSet = Text → Text → Text → Text

module _ (get : JsonGet) (set : JsonSet) where
  unfoldable pub merge_block : Text → List (Text × Text) → Text → Text
  merge_block top_key [] body = body
  merge_block top_key ((sub_key, val) ∷ rest) body =
      merge_block top_key rest (set body (top_key ++ b'.' ∷ sub_key) val)

  unfoldable pub merge_option : Text → OptionValue → Text → Text
  merge_option top_key (OptionValue.block entries) body = merge_block top_key entries body
  merge_option top_key (OptionValue.plain val) body = set body top_key val

  unfoldable pub merge_each : Map OptionValue → Text → Text
  merge_each [] body = body
  merge_each ((top_key, val) ∷ rest) body = merge_each rest (merge_option top_key val body)

  unfoldable pub execute_merge_options_inline : Text → Map OptionValue → Text
  execute_merge_options_inline body opts = merge_each opts (
      if (get body (codes "stream")).exists then body else set body (codes "stream") (codes "true"))

  -- Whether the body asks for a stream.
  unfoldable pub is_streaming : Text → Bool
  is_streaming body = let field = get body (codes "stream") in field.exists && field.bool

  unfoldable pub merge_for : Option StreamingConfig → Text → Text
  merge_for none body = body
  merge_for (some s) body =
      if is_streaming body then execute_merge_options_inline body s.request_option else body

  -- The headers that go with a body of this length.
  unfoldable pub set_body_headers : Text → ℕ → Header → Header
  set_body_headers host n out = header_del (codes "Accept-Encoding") (
      header_set (codes "Content-Type") (codes "application/json")
        (header_set (codes "Content-Length") (decimal 20 n) (header_set (codes "Host") host out)))

  -- The part of Rewrite on the body: the request, and the flag `streaming` of the context.
  unfoldable pub rewrite_body : Text → ProviderConfig → Body → Outgoing → Outgoing × Bool
  rewrite_body host provider no_body out = (out, false)
  rewrite_body host provider (broken_body read) out = (out, false)
  rewrite_body host provider (bytes body) out =
      let merged = merge_for provider.streaming body in
      (
        record out {
          headers = set_body_headers host (length merged) out.headers;
          body = bytes merged;
          content_length = length merged;
        },
        is_streaming body,
      )

  -- The headers before the body is looked at.
  unfoldable pub rewrite_headers : ProviderConfig → Text → Header → Header → Header
  rewrite_headers provider real_key incoming out =
      set_key provider.api_key_prefix real_key (copy_headers provider.api_key_prefix incoming out)

  -- Rewrite, with SetURL as a parameter; `any` is the path below the route.
  unfoldable pub rewrite :
      (Url → Url → Url)
      → ProviderConfig
      → Text
      → Url
      → Text
      → Header
      → Body
      → Outgoing
      → Outgoing × Bool
  rewrite set_url provider real_key target any incoming body out =
      let url = set_url target out.url in
      rewrite_body target.host provider body (record out {
        headers = rewrite_headers provider real_key incoming out.headers;
        url = record url { path = if text_eq any [] then codes "/" else any };
        host = target.host;
      })
