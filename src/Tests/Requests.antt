-- ===== src/Tests/Requests.antt =====
-- Requests at the gate of a gateway with one route and one key.
use ai_local.Prelude.{
  List, Text, [], codes, equal_fold, err, false, fields, hex_encode, insert, lookup, none, ok, pos,
  refl, some, text_eq, ℕ, ◌∷◌, ◌≡◌,
}
use ai_local.Apml.{ApmlConfig, ProviderConfig}
use ai_local.Json.{JsonGet}
use ai_local.Keystore.{
  Store, new_store, make_record, store_record, delete_key, KeyRecord, get_key_by_internal,
  hash_internal_key, make_internal_key,
}
use ai_local.Keystore.Invariant.{IsConsistent, new_store-IsConsistent, store_record-IsConsistent}
use ai_local.Usage.Tables.{Time, empty_database}
use ai_local.Proxy.Headers.{header_get, canonical}
use ai_local.Proxy.Auth.{
  auth_interceptor, Request, Session, bearer_key, credential, invalid_key, is_custom_header,
  local_key_of, quota_step,
}
use ai_local.Proxy.Gate.{auth_sound, revoked_key_refused, RestsOn, provider_at}

abbrev digest : Text → List ℕ
digest k = k

abbrev no_json : JsonGet
no_json body path = record { exists = false; raw = []; int = pos 0; string = []; bool = false }

abbrev noon : Time
noon = record { year = 2026; month = 7; day = 1; nanos = 0 }

abbrev openai : Text
openai = codes "/openai"

abbrev provider : ProviderConfig
provider = record {
  host = codes "api.openai.com";
  api_key_prefix = [];
  input_message = [];
  usage = none;
  streaming = none;
}

abbrev config : ApmlConfig
config = record {
  title = codes "t";
  base_uri = codes "https://ai.local";
  version = codes "v";
  plan_version = codes "p";
  quotas = [];
  providers = (codes "openai", provider) ∷ [];
  routes = (openai, record { provider = codes "openai"; quota = [] }) ∷ [];
}

abbrev key_record : KeyRecord
key_record = make_record digest (codes "id-1") (1 ∷ []) openai (codes "sk-real") (codes "team")

abbrev store : Store
store = store_record key_record new_store

store-IsConsistent : IsConsistent digest store
unfolding make_record
store-IsConsistent =
    store_record-IsConsistent digest new_store key_record refl (unfold new_store lookup in refl)
      (unfold new_store lookup in refl) (new_store-IsConsistent digest)

abbrev request : Request
request = record {
  headers = (codes "Authorization", codes "Bearer sk-local-01" ∷ []) ∷ [];
  body = [];
  client_ip = codes "10.0.0.1";
}

abbrev session : Session
session = record {
  real_key = codes "sk-real";
  local_key = codes "sk-local-01";
  client_ip = codes "10.0.0.1";
  alias = codes "team";
}

admitted :
    auth_interceptor digest no_json false false noon config store empty_database openai request
    ≡ ok session
unfolding auth_interceptor local_key_of is_custom_header bearer_key credential quota_step header_get
    canonical fields equal_fold lookup text_eq get_key_by_internal hash_internal_key store_record
    new_store make_record make_internal_key hex_encode insert
admitted = refl

key_read : local_key_of (provider_at config openai) request ≡ ok (codes "sk-local-01")
unfolding local_key_of is_custom_header bearer_key header_get canonical fields equal_fold lookup
    text_eq
key_read = refl

auth_sound_example :
    RestsOn digest no_json false false noon config store empty_database openai request session
auth_sound_example =
    auth_sound digest no_json false false noon config store empty_database openai request session
      admitted

stored_key : lookup (codes "id-1") store.keys ≡ some key_record
unfolding lookup text_eq store_record new_store make_record insert
stored_key = refl

revoked_key_refused_example :
    auth_interceptor digest no_json false false noon config
      (delete_key (codes "id-1") store).0
      empty_database
      openai
      request
    ≡ err invalid_key
unfolding make_record make_internal_key hex_encode
revoked_key_refused_example =
    revoked_key_refused digest no_json false false noon config store empty_database openai
      (codes "id-1") request key_record store-IsConsistent stored_key key_read
