-- ===== src/Tests/Gateway.antt =====
-- A key is issued, a request with it is sent upstream and answered, and its usage is written; and
-- then the gateway is stopped.
use ai_local.Prelude.{
  List, Text, [], arith, codes, equal_fold, false, fields, hex_encode, insert, length, lookup, none,
  pos, refl, some, text_eq, trim_space, values, ℕ, ◌++◌, ◌∷◌, ◌≡◌, ◌≢◌,
}
use ai_local.Apml.{ApmlConfig, ProviderConfig}
use ai_local.Json.{JsonGet}
use ai_local.Keystore.{
  KeyRecord, list_keys, new_store, add_key, find_duplicate, get_key_by_internal, hash_internal_key,
  make_internal_key, make_record, register, store_record,
}
use ai_local.Keystore.Invariant.{IsFresh}
use ai_local.Usage.Admission.{IsExact}
use ai_local.Usage.Ledger.{empty-IsBalanced}
use ai_local.Usage.Pool.{empty-IsPooled}
use ai_local.Usage.Tables.{Time, empty_database}
use ai_local.Usage.Turns.{MustExit, stop_terminates}
use ai_local.Usage.Worker.{
  UsageBackend, close_done, new_usage_backend, start_worker, take_record, not_started,
  emit_non_blocking, round, step,
}
use ai_local.Usage.Write.{
  Faults, execute_triple_write, write_daily, write_log, write_monthly, write_record,
}
use ai_local.Proxy.Rewrite.{
  Url, Outgoing, JsonSet, bytes, rewrite, rewrite_body, is_streaming, key_header,
}
use ai_local.Proxy.Serve.{Arrival, body_behind, forward, handle_reverse_proxy, serve, serve_route}
use ai_local.Usage.Stream.{parse_standard_json}
use ai_local.Gateway.{
  Gateway, GatewayEvent, answered, arrived, gateway_step, init_services, key_added, worked, at,
  land, take_off, without,
}
use ai_local.Gateway.Accounts.{IsAccounted}
use ai_local.Gateway.Sound.{KeysApart}
use ai_local.Tests.Upstream.{authorization-IsApart}
use ai_local.Proxy.Upstream.{IsApart}
use ai_local.Proxy.Rewrite.{key_header}
use mathlib.Core.Path.{subst}
use ai_local.Gateway.Reach.{Reach, Reach-IsAccounted, next, opened}
use ai_local.Admin.{serve_add_key, add_answer, add_to_route}
use ai_local.Proxy.Auth.{
  auth_interceptor, bearer_key, credential, is_custom_header, local_key_of, quota_step,
}
use ai_local.Proxy.Headers.{header_get, canonical}
use ai_local.Proxy.Respond.{modify_response, settle, respond_whole, usage_record}

abbrev pub digest : Text → List ℕ
digest k = k

abbrev pub no_json : JsonGet
no_json body path = record { exists = false; raw = []; int = pos 0; string = []; bool = false }

abbrev pub unchanged : JsonSet
unchanged body path value = body

abbrev pub noon : Time
noon = record { year = 2026; month = 7; day = 1; nanos = 0 }

abbrev pub openai : Text
openai = codes "/openai"

abbrev pub provider : ProviderConfig
provider = record {
  host = codes "api.openai.com";
  api_key_prefix = [];
  input_message = [];
  usage = some (record { input_tokens = codes "in"; output_tokens = codes "out" });
  streaming = none;
}

abbrev pub config : ApmlConfig
config = record {
  title = codes "t";
  base_uri = codes "https://ai.local";
  version = codes "v";
  plan_version = codes "p";
  quotas = [];
  providers = (codes "openai", provider) ∷ [];
  routes = (openai, record { provider = codes "openai"; quota = [] }) ∷ [];
}

abbrev pub target : Url
target = record { host = codes "api.openai.com"; path = []; others = codes "https" }

abbrev prepared : Outgoing
prepared = record {
  headers = [];
  url = record { host = []; path = codes "/openai/v1"; others = [] };
  host = [];
  body = bytes (codes "{}");
  content_length = 2;
}

abbrev pub arrival : Arrival
arrival = record {
  headers = (codes "Authorization", codes "Bearer sk-local-01" ∷ []) ∷ [];
  body = bytes (codes "{}");
  client_ip = codes "10.0.0.1";
  any = codes "/v1";
  prepared = prepared;
}

abbrev after : GatewayEvent → Gateway → Gateway
after e g = gateway_step digest no_json unchanged (λ t o. t) config e g

abbrev pub no_faults : Faults
no_faults s = false

abbrev pub issue : GatewayEvent
issue =
    key_added (some (codes "id-1")) (some (1 ∷ []))
      (record { route = openai; real_key = codes "sk-real"; alias = codes "me" })

abbrev pub at_start : Gateway
at_start = init_services empty_database

abbrev issued : Gateway
issued = after issue at_start

abbrev sent : Gateway
sent = after (arrived false false noon openai target arrival) issued

abbrev settled : Gateway
settled = after (answered 0 noon (record { status = 200; body = bytes (codes "{}") })) sent

abbrev written_down : Gateway
written_down = after (worked (take_record no_faults noon [])) settled

pub IsFresh-at_start : (i : Text) (b : List ℕ) → IsFresh digest i b at_start.store
unfolding init_services new_store lookup
IsFresh-at_start i b = record { new_id = refl; new_hash = refl }

abbrev all_keys : List KeyRecord
all_keys =
    list_keys written_down.store
    ++ (list_keys settled.store ++ (list_keys sent.store ++ (list_keys issued.store ++ [])))

course : Reach digest no_json unchanged (λ t o. t) config empty_database all_keys written_down
course = next (worked (take_record no_faults noon [])) tt (
    next (answered 0 noon (record { status = 200; body = bytes (codes "{}") })) tt (
      next (arrived false false noon openai target arrival) tt
        (next issue (λ i b p q. IsFresh-at_start i b) opened)))

config-KeysApart : KeysApart config
unfolding lookup
config-KeysApart name p e =
    let same : provider ≡ p = ground arith in
    subst (λ (x : ProviderConfig). IsApart (key_header x.api_key_prefix)) same
      (unfold text_eq in authorization-IsApart)

Reach-IsAccounted_example : IsAccounted digest empty_database all_keys written_down
Reach-IsAccounted_example =
    Reach-IsAccounted digest no_json unchanged (λ t o. t) config empty_database config-KeysApart
      course

pub empty-IsExact : IsExact empty_database
empty-IsExact = record { balanced = empty-IsBalanced; pooled = empty-IsPooled }

abbrev busy : UsageBackend
busy = start_worker (new_usage_backend empty_database)

busy_is_started : busy.worker ≢ not_started
unfolding start_worker new_usage_backend
busy_is_started e = cc

stop_terminates_example : MustExit (close_done busy)
stop_terminates_example = stop_terminates busy busy_is_started

paid : length written_down.backend.db.logs ≡ 1
unfolding gateway_step init_services take_off land at without serve_add_key add_to_route add_answer
    add_key register make_record store_record new_store find_duplicate list_keys values
    make_internal_key hex_encode hash_internal_key get_key_by_internal insert lookup text_eq
    trim_space serve serve_route handle_reverse_proxy forward body_behind rewrite auth_interceptor
    local_key_of bearer_key is_custom_header credential quota_step header_get canonical fields
    equal_fold modify_response settle emit_non_blocking start_worker new_usage_backend step round
    write_record rewrite_body is_streaming parse_standard_json execute_triple_write write_log
    write_daily write_monthly respond_whole usage_record
paid = refl
