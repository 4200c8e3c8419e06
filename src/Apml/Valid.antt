-- ===== src/Apml/Valid.antt =====
-- What a configuration has to satisfy, stated without the order of the tests.
use ai_local.Prelude.{Map, Memᴰ, Text, [], lookup, none, pos, some, true, ◌≡◌, ◌≢◌, ◌≤ℤ◌, ◌⊎◌}
use ai_local.Apml.{
  ApmlConfig, EventConfig, ProviderConfig, QuotaDetail, RouteConfig, StreamingConfig, UsageConfig,
  last, per_key, shared, split,
}
use ai_local.Apml.Names.{is_alpha_name, is_plan_name}

abbrev pub ValidQuota : Text → QuotaDetail → Type 0
ValidQuota name q =
    (is_alpha_name name ≡ true)
    × (pos 0 ≤ℤ q.daily)
    × (pos 0 ≤ℤ q.monthly)
    × (((q.daily ≡ pos 0) × (q.monthly ≡ pos 0)) ⊎ ((q.mode ≡ per_key) ⊎ (q.mode ≡ shared)))

-- Mode `last`: both fields at the top, and no sub-block.
abbrev pub ValidLast : StreamingConfig → Type 0
ValidLast s =
    (s.mode ≡ last)
    × (s.input_tokens ≢ [])
    × (s.output_tokens ≢ [])
    × (s.input ≡ none)
    × (s.output ≡ none)

-- Mode `split`: both sub-blocks, complete, and no field at the top.
abbrev pub ValidSplit : StreamingConfig → Type 0
ValidSplit s =
    (i o : EventConfig) × (s.mode ≡ split)
    × (s.input ≡ some i)
    × (s.output ≡ some o)
    × (i.chunk_type ≢ [])
    × (i.input_tokens ≢ [])
    × (o.chunk_type ≢ [])
    × (o.output_tokens ≢ [])
    × (s.input_tokens ≡ [])
    × (s.output_tokens ≡ [])

abbrev pub ValidStreaming : StreamingConfig → Type 0
ValidStreaming s = ValidLast s ⊎ ValidSplit s

abbrev pub ValidProvider : Text → ProviderConfig → Type 0
ValidProvider name p =
    (is_alpha_name name ≡ true)
    × (p.host ≢ [])
    × ((u : UsageConfig) × (p.usage ≡ some u) × (u.input_tokens ≢ []) × (u.output_tokens ≢ []))
    × ((s : StreamingConfig) × (p.streaming ≡ some s) × ValidStreaming s)

abbrev pub ValidRoute : ApmlConfig → Text → RouteConfig → Type 0
ValidRoute c path r =
    (r.provider ≢ [])
    × ((p : ProviderConfig) × (lookup r.provider c.providers ≡ some p))
    × ((r.quota ≡ []) ⊎ ((q : QuotaDetail) × (lookup r.quota c.quotas ≡ some q)))

abbrev pub Each {ℓ κ} : {V : Type ℓ} → (Text → V → Type κ) → Map V → Type (ℓ ⊔ κ)
Each {V = V} P m = (k : Text) (v : V) → Memᴰ (k, v) m → P k v

pub record IsValid (c : ApmlConfig) : Type 0 where
  pub title : c.title ≢ []
  pub base_uri : c.base_uri ≢ []
  pub version : c.version ≢ []
  pub plan_version : is_plan_name c.plan_version ≡ true
  pub some_route : c.routes ≢ []
  pub quotas : Each ValidQuota c.quotas
  pub providers : Each ValidProvider c.providers
  pub routes : Each (ValidRoute c) c.routes
