-- ===== src/Tests/Secrecy.antt =====
-- One request to two gateways, whose stores know one local key for two upstream keys.
use ai_local.Prelude.{Bool-cases, Text, [], codes, false, inl, inr, lookup, refl, text_eq, ◌∷◌}
use ai_local.Keystore.{KeyRecord, Store, hash_internal_key}
use ai_local.Proxy.Alike.{AlikeServed, SameButRealKeys}
use ai_local.Proxy.Secrecy.{serve_blind}
use ai_local.Proxy.Serve.{serve}
use ai_local.Tests.Gateway.{arrival, config, digest, no_json, noon, openai, target, unchanged}
use ai_local.Usage.Tables.{empty_database}

abbrev hash : Text
hash = hash_internal_key digest (codes "sk-local-01")

abbrev record_for : Text → KeyRecord
record_for real_key = record {
  uuid = codes "id-1";
  route = openai;
  alias = codes "me";
  real_key = real_key;
  internal_key = codes "sk-local-01";
  key_hash = hash;
}

abbrev pub store_for : Text → Store
store_for real_key = record {
  keys = (codes "id-1", record_for real_key) ∷ [];
  by_hash = (hash, record_for real_key) ∷ [];
}

stores-SameButRealKeys : SameButRealKeys (store_for (codes "sk-one")) (store_for (codes "sk-two"))
unfolding lookup
stores-SameButRealKeys h = elim (Bool-cases (text_eq hash h)) [
  | inl e ↦ rw e (refl, refl)
  | inr e ↦ rw e tt
]

serve_blind_example :
    AlikeServed
      (serve no_json unchanged
        (λ t o. t)
        digest
        false
        false
        noon
        config
        (store_for (codes "sk-one"))
        empty_database
        openai
        target
        arrival)
      (serve no_json unchanged
        (λ t o. t)
        digest
        false
        false
        noon
        config
        (store_for (codes "sk-two"))
        empty_database
        openai
        target
        arrival)
serve_blind_example =
    serve_blind no_json unchanged (λ t o. t) digest false false noon config empty_database
      (store_for (codes "sk-one")) (store_for (codes "sk-two")) openai target arrival
      stores-SameButRealKeys
