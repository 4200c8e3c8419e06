-- ===== src/Apml/Resolve.antt =====
-- APMLConfig.ResolveQuota of internal/apml/parser.go, and what a valid configuration promises to
-- the code that looks things up in it.
use ai_local.Prelude.{
  Option, Text, [], arith, entry-of_lookup, if◌then◌else◌, inl, inr, lookup, none, refl, some, ◌∷◌,
  ◌≡◌, ◌⊎◌,
}
use ai_local.Apml.{
  ApmlConfig, ProviderConfig, QuotaDetail, RouteConfig, StreamingConfig, UsageConfig,
}
use ai_local.Apml.Validate.{is_empty}
use ai_local.Apml.Valid.{IsValid, ValidQuota, ValidStreaming}

unfoldable pub resolve_quota : ApmlConfig → Text → Option QuotaDetail
resolve_quota c path = elim (lookup path c.routes) [
  | none ↦ none
  | some r ↦ if is_empty r.quota then none else lookup r.quota c.quotas
]

-- In a valid configuration the provider of every route is defined, has its usage fields and its
-- streaming block, and the streaming block is complete for its mode: no lookup of the proxy's
-- handlers misses, and no pointer that they follow is nil.
pub valid_route :
    (c : ApmlConfig) (path : Text) (r : RouteConfig)
    → IsValid c
    → lookup path c.routes ≡ some r
    → (p : ProviderConfig) × (u : UsageConfig) × (s : StreamingConfig) × (lookup r.provider
          c.providers
        ≡ some p)
      × (p.usage ≡ some u)
      × (p.streaming ≡ some s)
      × ValidStreaming s
valid_route c path r v e =
    let route = v.routes path r (entry-of_lookup path r c.routes e) in
    let p = route.1.0 in
    let provider = v.providers r.provider p (entry-of_lookup r.provider p c.providers route.1.1) in
    let u = provider.2 in let s = provider.3 in (p, u.0, s.0, route.1.1, u.1, s.1, s.2)

-- In a valid configuration a route resolves to no quota exactly if it names none, and a quota
-- that a route resolves to has limits that are not negative, and a known mode unless both are 0.
pub resolve_quota_valid :
    (c : ApmlConfig) (path : Text) (r : RouteConfig)
    → IsValid c
    → lookup path c.routes ≡ some r
    → ((resolve_quota c path ≡ none) × (r.quota ≡ []))
      ⊎ ((q : QuotaDetail) × (resolve_quota c path ≡ some q) × ValidQuota r.quota q)
unfolding resolve_quota
resolve_quota_valid c path r v e = elim (v.routes path r (entry-of_lookup path r c.routes e)).2 [
  | inl unnamed ↦ inl (ground arith, unnamed)
  | inr (q, found) ↦ named r.quota q found refl
]
  where
    named :
        (name : Text) (q : QuotaDetail)
        → lookup name c.quotas ≡ some q
        → r.quota ≡ name
        → ((resolve_quota c path ≡ none) × (r.quota ≡ []))
          ⊎ ((q : QuotaDetail) × (resolve_quota c path ≡ some q) × ValidQuota r.quota q)
    named [] q found same = inl (ground arith, same)
    named (x ∷ name) q found same = inr (
      q,
      ground arith,
      rw same (v.quotas (x ∷ name) q (entry-of_lookup (x ∷ name) q c.quotas found)),
    )
