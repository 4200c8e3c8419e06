-- ===== src/Proxy/Gate.antt =====
-- What the interceptor lets through.
use ai_local.Prelude.{
  >>=-eq-ok, Bool, Bool-cases, List, Option, Result, Text, ap, arith, err, inl, inr, lookup, none,
  ok, ok-injective, refl, some, text_eq, text_eq_iff, text_eq_refl, true, ℕ, ◌≡◌, ◌⊎◌,
}
use mathlib.Core.Path.{subst}
use ai_local.Apml.{ApmlConfig, RouteConfig, ProviderConfig}
use ai_local.Json.{JsonGet}
use ai_local.Keystore.{KeyRecord, Store, get_key_by_internal, delete_key}
use ai_local.Usage.Tables.{Time, Database}
use ai_local.Proxy.Auth.{
  auth_interceptor, Request, Session, credential, local_key_of, or_zero, quota_step, zero_provider,
  zero_route, Refusal, invalid_key, zero_quota,
}
use ai_local.Keystore.Invariant.{IsConsistent}
use ai_local.Keystore.Lookup.{get-delete_key}
use ai_local.Usage.Quota.{CheckResult, quota_check}
use ai_local.Apml.Validate.{is_empty}

abbrev pub route_at : ApmlConfig → Text → RouteConfig
route_at cfg path = or_zero zero_route (lookup path cfg.routes)

abbrev pub provider_at : ApmlConfig → Text → ProviderConfig
provider_at cfg path = or_zero zero_provider (lookup (route_at cfg path).provider cfg.providers)

credential_ok :
    (path : Text) (o : Option KeyRecord) (r : KeyRecord)
    → credential path o ≡ ok r
    → (o ≡ some r) × (r.route ≡ path)
unfolding credential
credential_ok path none r e = cc
credential_ok path (some x) r e = elim (Bool-cases (text_eq x.route path)) [
  | inl p ↦
      let same : x ≡ r = ground arith in
      (ap (λ (y : KeyRecord). some y) same, rw (← same) ((text_eq_iff x.route path).0 p))
  | inr p ↦ ground arith
]

module _ (sha256 : Text → List ℕ) (get : JsonGet) (daily_fails monthly_fails : Bool) (now : Time)
    (cfg : ApmlConfig) (store : Store) (db : Database) (path : Text) (req : Request) where
  -- The quota step of this request, for the key that it carries.
  abbrev within_quota : Text → Result Refusal (Unit {0})
  within_quota k =
      quota_step sha256 get daily_fails monthly_fails now cfg db (route_at cfg path) k path req.body
        (provider_at cfg path)

  -- The verdict of the check on the quota that the route names, for the key that it carries.
  abbrev pub verdict : Text → CheckResult
  verdict k =
      quota_check get daily_fails monthly_fails db now k path
        (or_zero zero_quota (lookup (route_at cfg path).quota cfg.quotas)) req.body
        (some (provider_at cfg path))

  -- The route names no quota, or the check allows the request.
  abbrev pub IsWithinQuota : Text → Type 0
  IsWithinQuota k = (is_empty (route_at cfg path).quota ≡ true) ⊎ ((verdict k).allowed ≡ true)

  within_quota-IsWithinQuota : (k : Text) → within_quota k ≡ ok tt → IsWithinQuota k
  unfolding quota_step
  within_quota-IsWithinQuota k e = elim (Bool-cases (is_empty (route_at cfg path).quota)) [
    | inl none_named ↦ inl none_named
    | inr named ↦ inr (ground arith)
  ]

  -- What a session rests on: a key read from the request, a record of this route that the key
  -- finds, whose upstream key and alias the session carries, and the quota of the route.
  abbrev pub RestsOn : Session → Type 0
  RestsOn s =
      (r : KeyRecord) × (local_key_of (provider_at cfg path) req ≡ ok s.local_key)
      × (get_key_by_internal sha256 s.local_key store ≡ some r)
      × (r.route ≡ path)
      × (s.real_key ≡ r.real_key)
      × (s.alias ≡ r.alias)
      × (s.client_ip ≡ req.client_ip)
      × IsWithinQuota s.local_key

  -- Only a registered key passes, only on its own route, and only within the quota: a request that
  -- is let through carries a key that finds a record of this route, the handler is given that
  -- record's upstream key and alias, and QuotaCheck allows the request for that key, on the quota
  -- that the route names, if it names one.
  pub auth_sound :
      (s : Session)
      → auth_interceptor sha256 get daily_fails monthly_fails now cfg store db path req ≡ ok s
      → RestsOn s
  unfolding auth_interceptor
  auth_sound s e =
      let (k, key_read, e₁) = >>=-eq-ok (local_key_of (provider_at cfg path) req) _ e in
      let (r, registered, e₂) =
        >>=-eq-ok (credential path (get_key_by_internal sha256 k store)) _ e₁ in
      let (u, let_through, e₃) = >>=-eq-ok (within_quota k) _ e₂ in
      let (found, here) = credential_ok path (get_key_by_internal sha256 k store) r registered in
      session_of k r s e₃
        (r, key_read, found, here, refl, refl, refl, within_quota-IsWithinQuota k let_through)
    where
      session_of :
          (k : Text) (r : KeyRecord) (s : Session)
          → ◌≡◌ {A = Result Refusal Session}
              (ok (record {
                real_key = r.real_key;
                local_key = k;
                client_ip = req.client_ip;
                alias = r.alias;
              }))
              (ok s)
          → RestsOn (record {
            real_key = r.real_key;
            local_key = k;
            client_ip = req.client_ip;
            alias = r.alias;
          })
          → RestsOn s
      session_of k r s e h = subst RestsOn (ok-injective e) h

-- A key that was deleted is refused at once, on every route.
pub revoked_key_refused :
    (sha256 : Text → List ℕ) (get : JsonGet) (daily_fails monthly_fails : Bool) (now : Time)
    (cfg : ApmlConfig) (store : Store) (db : Database) (path uid : Text) (req : Request)
    (r : KeyRecord)
    → IsConsistent sha256 store
    → lookup uid store.keys ≡ some r
    → local_key_of (provider_at cfg path) req ≡ ok r.internal_key
    → auth_interceptor sha256 get daily_fails monthly_fails now cfg
        (delete_key uid store).0
        db
        path
        req
      ≡ err invalid_key
unfolding auth_interceptor credential
revoked_key_refused sha256 get daily_fails monthly_fails now cfg store db path uid req r v e p =
    let gone = get-delete_key sha256 uid r.internal_key store r v e in
    rw (p, rw text_eq_refl at gone, credential)
