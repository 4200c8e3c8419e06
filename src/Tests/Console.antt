-- ===== src/Tests/Console.antt =====
-- Administrative calls on a gateway with one route, whose quota is named, and one key.
use ai_local.Prelude.{
  List, Memᴰ, Text, [], codes, err, insert, lookup, none, pos, refl, some, text_eq, ℕ, ◌∷◌, ◌≡◌,
}
use ai_local.Apml.{ApmlConfig}
use ai_local.Keystore.{Store, KeyRecord, new_store, make_record}
use ai_local.Keystore.Invariant.{IsFresh, IsConsistent}
use ai_local.Keystore.History.{NoTwins}
use ai_local.Admin.{
  AddKeyRequest, QuotaInfo, list_quotas, serve_add_key, route_missing, add_to_route, apply_quotas,
  quota_info,
}
use ai_local.Admin.Managed.{Managed, Managed-sound, IsServed}

abbrev digest : Text → List ℕ
digest k = k

abbrev config : ApmlConfig
config = record {
  title = codes "t";
  base_uri = codes "https://ai.local";
  version = codes "v";
  plan_version = codes "p";
  quotas = (codes "team", record { mode = codes "per_key"; daily = pos 100; monthly = pos 0 }) ∷ [];
  providers = [];
  routes = (codes "/openai", record { provider = codes "openai"; quota = codes "team" }) ∷ [];
}

abbrev ask : AddKeyRequest
ask = record { route = codes "/openai"; real_key = codes "sk-real"; alias = codes "me" }

abbrev served : Store
served = (serve_add_key digest config (some (codes "id-1")) (some (1 ∷ [])) ask new_store).0

IsFresh-at_start : (i : Text) (b : List ℕ) → IsFresh digest i b new_store
unfolding new_store lookup
IsFresh-at_start i b = record { new_id = refl; new_hash = refl }

served-Managed : Managed digest config served
served-Managed =
    Managed.key_added (some (codes "id-1")) (some (1 ∷ [])) ask (λ i b p q. IsFresh-at_start i b)
      Managed.opened

Managed-sound_example : IsConsistent digest served × NoTwins served × IsServed config served
Managed-sound_example = Managed-sound digest config served-Managed

-- A key for a route that the configuration does not have is refused.
wrong_route :
    serve_add_key digest config none none (record ask { route = codes "/none" }) new_store
    ≡ (new_store, err (route_missing (codes "/none")))
unfolding serve_add_key add_to_route lookup text_eq
wrong_route = refl

abbrev stored_record : KeyRecord
stored_record =
    make_record digest (codes "id-1") (1 ∷ []) (codes "/openai") (codes "sk-real") (codes "me")

abbrev team_info : QuotaInfo
team_info = record {
  name = codes "team";
  daily = pos 100;
  monthly = pos 0;
  mode = codes "per_key";
  status = codes "APPLIED";
}

shown_as_applied : list_quotas config ≡ team_info ∷ []
unfolding list_quotas quota_info apply_quotas insert lookup text_eq
shown_as_applied = refl

shown_in_list : Memᴰ team_info (list_quotas config)
shown_in_list = rw shown_as_applied (Memᴰ.head refl)
