-- ===== src/Apml/Sound.antt =====
-- The validation accepts exactly the valid configurations.
use ai_local.Prelude.{
  Map, Memᴰ, Option, Text, [], arith, false, inl, inr, lookup, none, not, refl, some, sym,
  text_eq_iff, true, ◌&&◌, ◌↔◌, ◌∷◌, ◌≡◌, ◌≢◌, ◌⊎◌,
}
use ai_local.Apml.{
  ApmlConfig, ProviderConfig, QuotaDetail, RouteConfig, per_key, shared, StreamingConfig,
  UsageConfig,
}
use ai_local.Apml.Names.{is_plan_name}
use ai_local.Apml.Validate.{
  ConfigError, check_provider, check_quota, check_route, first_error, validate, check_metadata,
  check_usage, is_empty, is_some, check_streaming_field, check_usage_field,
}
use ai_local.Apml.Valid.{Each, IsValid, ValidProvider, ValidQuota, ValidRoute, ValidStreaming}
use ai_local.Apml.Streaming.{check_streaming_iff}
use mathlib.Core.Path.{subst}

-- A loop over a map passes exactly if every entry does.
module _ {V : Type 0} (check : Text → V → Option ConfigError) (P : Text → V → Type 0)
    (same : (k : Text) (v : V) → (check k v ≡ none) ↔ P k v) where
  first_error-Each : (m : Map V) → first_error check m ≡ none → Each P m
  unfolding first_error
  first_error-Each [] e k v t = elim t [ ]
  first_error-Each ((j, w) ∷ m) e k v (Memᴰ.head h) =
      subst (λ (a : Text × V). P a.0 a.1) (sym h) ((same j w).0 (ground arith))
  first_error-Each ((j, w) ∷ m) e k v (Memᴰ.tail t) = first_error-Each m (ground arith) k v t

  first_error-none : (m : Map V) → Each P m → first_error check m ≡ none
  unfolding first_error
  first_error-none [] h = refl
  first_error-none ((j, w) ∷ m) h =
      rw ((same j w).1 (h j w (Memᴰ.head refl))) (first_error-none m (λ k v t. h k v (Memᴰ.tail t)))

check_quota_iff : (name : Text) (q : QuotaDetail) → (check_quota name q ≡ none) ↔ ValidQuota name q
unfolding check_quota
check_quota_iff name q = (
  λ e. (
    ground arith,
    ground arith,
    ground arith,
    ground (arith, text_eq_iff q.mode per_key, text_eq_iff q.mode shared),
  ),
  λ h. ground (arith, text_eq_iff q.mode per_key, text_eq_iff q.mode shared),
)

quota_known :
    (quota : Text) (found : Option QuotaDetail)
    → not (is_empty quota) && not (is_some found) ≡ false
    → (quota ≡ []) ⊎ ((q : QuotaDetail) × (found ≡ some q))
quota_known [] found e = inl refl
quota_known (x ∷ s) none e = cc
quota_known (x ∷ s) (some q) e = inr (q, refl)

check_route_iff :
    (c : ApmlConfig) (path : Text) (r : RouteConfig)
    → (check_route c path r ≡ none) ↔ ValidRoute c path r
unfolding check_route
check_route_iff c path r = (
  λ e. (ground arith, ground arith, quota_known r.quota (lookup r.quota c.quotas) (ground arith)),
  λ h. ground arith,
)

usage_field_iff :
    (name : Text) (o : Option UsageConfig)
    → (check_usage_field name o ≡ none)
      ↔ ((u : UsageConfig) × (o ≡ some u) × (u.input_tokens ≢ []) × (u.output_tokens ≢ []))
unfolding check_usage_field check_usage
usage_field_iff name none = (λ e. cc, λ h. cc (h.1))
usage_field_iff name (some u) = (λ e. (u, refl, ground arith, ground arith), λ h. ground arith)

streaming_field_iff :
    (name : Text) (o : Option StreamingConfig)
    → (check_streaming_field name o ≡ none)
      ↔ ((s : StreamingConfig) × (o ≡ some s) × ValidStreaming s)
unfolding check_streaming_field
streaming_field_iff name none = (λ e. cc, λ h. cc (h.1))
streaming_field_iff name (some s) = (
  λ e. (s, refl, (check_streaming_iff name s).0 e),
  λ h.
      let same : s ≡ h.0 = ground arith in
      (check_streaming_iff name s).1 (subst ValidStreaming (sym same) h.2),
)

check_provider_iff :
    (name : Text) (p : ProviderConfig) → (check_provider name p ≡ none) ↔ ValidProvider name p
unfolding check_provider
check_provider_iff name p = (
  λ e. (
    ground arith,
    ground arith,
    (usage_field_iff name p.usage).0 (ground arith),
    (streaming_field_iff name p.streaming).0 (ground arith),
  ),
  λ h.
      rw ((usage_field_iff name p.usage).1 h.2, (streaming_field_iff name p.streaming).1 h.3)
        (ground arith),
)

plan_name_nonempty : (s : Text) → is_plan_name s ≡ true → s ≢ []
unfolding is_plan_name
plan_name_nonempty [] e q = cc
plan_name_nonempty (x ∷ s) e q = cc

-- The validation gives no error exactly if the configuration is valid, whatever the order in
-- which the maps are walked.
pub validate_iff : (c : ApmlConfig) → (validate c ≡ none) ↔ IsValid c
unfolding validate check_metadata
validate_iff c = (forth, back)
  where
    forth : validate c ≡ none → IsValid c
    forth e = record {
      title = ground arith;
      base_uri = ground arith;
      version = ground arith;
      plan_version = ground arith;
      some_route = ground arith;
      quotas = first_error-Each check_quota ValidQuota check_quota_iff c.quotas (ground arith);
      providers =
          first_error-Each check_provider ValidProvider check_provider_iff c.providers
            (ground arith);
      routes =
          first_error-Each (check_route c) (ValidRoute c) (check_route_iff c) c.routes
            (ground arith);
    }

    back : IsValid c → validate c ≡ none
    back v =
        rw
          (
            first_error-none check_quota ValidQuota check_quota_iff c.quotas v.quotas,
            first_error-none check_provider ValidProvider check_provider_iff c.providers
                v.providers,
            first_error-none (check_route c) (ValidRoute c) (check_route_iff c) c.routes v.routes,
          )
          (ground (arith, plan_name_nonempty c.plan_version))
