-- ===== src/Tests/Refused.antt =====
-- A request on a route whose quota of one token is used up.
use ai_local.Keystore.{get_key_by_internal, hash_internal_key}
use ai_local.Proxy.Headers.{header_get, canonical}
use ai_local.Prelude.{
  [], codes, equal_fold, err, false, fields, hex_encode, lookup, pos, refl, text_eq, ◌+64◌, ◌+ℤ◌,
  ◌∷◌, ◌≡◌, ◌⊎◌,
}
use ai_local.Proxy.Auth.{
  Refusal, auth_interceptor, quota_exceeded, local_key_of, bearer_key, is_custom_header, credential,
  quota_step,
}
use ai_local.Proxy.Refused.{NoKey, NoRecord, OverQuota, refusal_exact}
use ai_local.Proxy.Serve.{request_of}
use ai_local.Tests.Admitted.{capped}
use ai_local.Tests.Gateway.{arrival, digest, no_json, noon, openai}
use ai_local.Tests.Secrecy.{store_for}
use ai_local.Usage.Quota.{
  daily_exceeded, quota_check, decide_quota, judge, check_limit, query_tokens, sum_tokens,
  estimate_input_tokens,
}
use ai_local.Usage.Tables.{Database, empty_database, format_date}

abbrev used_up : Database
used_up = record empty_database {
  daily =
      record {
        local_key = codes "sk-local-01";
        route_path = openai;
        period = codes "2026-07-01";
        totals = record { requests = pos 1; prompt = pos 3; completion = pos 2; tokens = pos 5 };
        updated_at = [];
      }
      ∷ [];
}

abbrev too_much : Refusal
too_much = quota_exceeded (daily_exceeded (pos 5) (pos 0) (pos 1))

over :
    auth_interceptor digest no_json false false noon capped
      (store_for (codes "sk-one"))
      used_up
      openai
      (request_of arrival)
    ≡ err too_much
unfolding auth_interceptor local_key_of bearer_key is_custom_header credential quota_step header_get
    canonical fields equal_fold get_key_by_internal hash_internal_key hex_encode lookup text_eq
    quota_check decide_quota judge check_limit query_tokens sum_tokens estimate_input_tokens ◌+64◌
    format_date ◌+ℤ◌
over = refl

refusal_exact_example :
    NoKey digest no_json false false noon capped
      (store_for (codes "sk-one"))
      used_up
      openai
      (request_of arrival)
      too_much
    ⊎ (NoRecord digest no_json false false noon capped
          (store_for (codes "sk-one"))
          used_up
          openai
          (request_of arrival)
          too_much
        ⊎ OverQuota digest no_json false false noon capped
            (store_for (codes "sk-one"))
            used_up
            openai
            (request_of arrival)
            too_much)
refusal_exact_example =
    refusal_exact digest no_json false false noon capped (store_for (codes "sk-one")) used_up openai
      (request_of arrival) too_much over
