-- ===== src/Tests/Admitted.antt =====
-- Three requests at once on a route whose quota is one token.
use ai_local.Usage.Audit.{logged_on_route}
use ai_local.Usage.Quota.{
  quota_check, decide_quota, judge, check_limit, query_tokens, sum_tokens, estimate_input_tokens,
}
use ai_local.Usage.Worker.{start_worker, new_usage_backend}
use ai_local.Proxy.Headers.{header_get, canonical}
use ai_local.Proxy.Rewrite.{rewrite, rewrite_body, is_streaming}
use ai_local.Keystore.{
  add_key, register, make_record, store_record, new_store, find_duplicate, list_keys,
  make_internal_key, hash_internal_key, get_key_by_internal,
}
use ai_local.Admin.{serve_add_key, add_to_route, add_answer}
use ai_local.Prelude.{
  [], arith, codes, equal_fold, false, fields, hex_encode, insert, lookup, pos, refl, some, text_eq,
  trim_space, values, ◌++◌, ◌+64◌, ◌+ℤ◌, ◌∷◌, ◌≡◌,
}
use ai_local.Apml.{ApmlConfig, QuotaDetail, RouteConfig}
use ai_local.Gateway.{gateway_step, init_services, Gateway}
use ai_local.Proxy.Auth.{
  Session, auth_interceptor, local_key_of, bearer_key, is_custom_header, credential, quota_step,
}
use ai_local.Proxy.Serve.{
  Flight, forward, forwarded, serve, serve_route, handle_reverse_proxy, body_behind,
}
use ai_local.Tests.Gateway.{
  IsFresh-at_start, arrival, at_start, config, digest, empty-IsExact, issue, no_json, noon, openai,
  provider, target, unchanged,
}
use ai_local.Gateway.Admitted.{FitsBoth, IsSmall, forwarded_fits}
use ai_local.Gateway.Reach.{Reach, next, opened}
use ai_local.Proxy.Gate.{provider_at}
use ai_local.Proxy.Respond.{bytes_of}
use ai_local.Keystore.{list_keys}
use ai_local.Gateway.{gateway_step}
use ai_local.Apml.{QuotaDetail, RouteConfig}
use ai_local.Usage.Tables.{empty_database}
use ai_local.Usage.Admission.{used}

abbrev tiny : QuotaDetail
tiny = record { mode = codes "shared"; daily = pos 1; monthly = pos 0 }

abbrev tiny_route : RouteConfig
tiny_route = record { provider = codes "openai"; quota = codes "tiny" }

abbrev pub capped : ApmlConfig
capped = record config { quotas = (codes "tiny", tiny) ∷ []; routes = (openai, tiny_route) ∷ [] }

abbrev ready : Gateway
ready = gateway_step digest no_json unchanged (λ t o. t) capped issue at_start

abbrev session : Session
session = record {
  real_key = codes "sk-real";
  local_key = codes "sk-local-01";
  client_ip = codes "10.0.0.1";
  alias = codes "me";
}

abbrev flight : Flight
flight = forward no_json unchanged (λ t o. t) provider tiny_route openai target arrival session

one_passes :
    serve no_json unchanged
      (λ t o. t)
      digest
      false
      false
      noon
      capped
      ready.store
      ready.backend.db
      openai
      target
      arrival
    ≡ forwarded flight
unfolding gateway_step init_services serve_add_key add_to_route add_answer add_key register
    make_record store_record new_store find_duplicate list_keys values make_internal_key hex_encode
    hash_internal_key get_key_by_internal insert lookup text_eq trim_space serve serve_route
    handle_reverse_proxy forward body_behind rewrite auth_interceptor local_key_of bearer_key
    is_custom_header credential quota_step header_get canonical fields equal_fold start_worker
    new_usage_backend rewrite_body is_streaming quota_check decide_quota judge check_limit
    query_tokens sum_tokens estimate_input_tokens ◌+64◌
one_passes = refl

course :
    Reach digest no_json unchanged
      (λ t o. t)
      capped
      empty_database
      (list_keys ready.store ++ [])
      ready
course = next issue (λ i b p q. IsFresh-at_start i b) opened

route_known : lookup openai capped.routes ≡ some tiny_route
unfolding lookup text_eq
route_known = refl

quota_known : lookup tiny_route.quota capped.quotas ≡ some tiny
unfolding lookup text_eq
quota_known = refl

sums-IsSmall :
    IsSmall no_json ready.backend.db noon
      (codes "sk-local-01")
      openai
      tiny
      (bytes_of arrival.body)
      (provider_at capped openai)
unfolding used ◌+ℤ◌ text_eq logged_on_route gateway_step init_services start_worker
    new_usage_backend estimate_input_tokens lookup
sums-IsSmall = (omega arith, omega arith)

forwarded_fits_example :
    FitsBoth no_json ready.backend.db noon
      (codes "sk-local-01")
      openai
      tiny
      (bytes_of arrival.body)
      (provider_at capped openai)
unfolding forward
forwarded_fits_example =
    forwarded_fits digest no_json unchanged (λ t o. t) capped empty_database noon openai target
      arrival flight tiny_route tiny empty-IsExact course route_known refl quota_known sums-IsSmall
      one_passes
