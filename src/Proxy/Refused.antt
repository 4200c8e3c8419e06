-- ===== src/Proxy/Refused.antt =====
-- What the interceptor of internal/proxy/proxy.go refuses, and what it answers then.
use ai_local.Prelude.{
  >>-eq-err, Bool, Bool-cases, List, Option, Result-cases, Text, [], ap, arith, codes, equal_fold,
  err, err-injective, false, fields, inl, inr, lookup, none, ok, refl, some, text_eq, true, ℕ, ◌∙◌,
  ◌∷◌, ◌≡◌, ◌⊎◌,
}
use ai_local.Apml.{ApmlConfig, ProviderConfig}
use ai_local.Apml.Validate.{is_empty}
use ai_local.Json.{JsonGet}
use ai_local.Keystore.{KeyRecord, Store, get_key_by_internal}
use ai_local.Proxy.Answer.{deny_text, detail_text, refusal_answer}
use ai_local.Proxy.Auth.{
  Refusal, Request, auth_interceptor, invalid_key, local_key_of, or_zero, quota_step, zero_quota,
  bearer_key, credential, custom_key, is_custom_header, malformed_bearer, malformed_custom_header,
  quota_exceeded,
}
use ai_local.Proxy.Headers.{header_get}
use ai_local.Proxy.Gate.{provider_at, route_at}
use ai_local.Usage.Quota.{CheckResult, quota_check}
use ai_local.Usage.Tables.{Database, Time}

-- Whether a find is a record of this route.
abbrev pub is_for : Text → Option KeyRecord → Bool
is_for path none = false
is_for path (some r) = text_eq r.route path

module _ (sha256 : Text → List ℕ) (get : JsonGet) (daily_fails monthly_fails : Bool) (now : Time)
    (cfg : ApmlConfig) (store : Store) (db : Database) (path : Text) (req : Request) where
  -- The verdict on the quota that the route names.
  abbrev pub verdict : Text → CheckResult
  verdict k =
      quota_check get daily_fails monthly_fails db now k path
        (or_zero zero_quota (lookup (route_at cfg path).quota cfg.quotas)) req.body
        (some (provider_at cfg path))

  abbrev pub NoKey : Refusal → Type 0
  NoKey e = (local_key_of (provider_at cfg path) req ≡ err e) × ((refusal_answer e).status ≡ 401)

  abbrev pub NoRecord : Refusal → Type 0
  NoRecord e =
      (k : Text) × (local_key_of (provider_at cfg path) req ≡ ok k)
      × (is_for path (get_key_by_internal sha256 k store) ≡ false)
      × (e ≡ invalid_key)
      × ((refusal_answer e).status ≡ 401)

  abbrev pub OverQuota : Refusal → Type 0
  OverQuota e =
      (k : Text) × (local_key_of (provider_at cfg path) req ≡ ok k)
      × (is_for path (get_key_by_internal sha256 k store) ≡ true)
      × (is_empty (route_at cfg path).quota ≡ false)
      × ((verdict k).allowed ≡ false)
      × ((refusal_answer e).status ≡ 429)
      × ((refusal_answer e).detail ≡ deny_text (verdict k).deny_reason)

  custom_key-401 :
      (name : Text) (words : List Text) (e : Refusal)
      → custom_key name words ≡ err e
      → (refusal_answer e).status ≡ 401
  unfolding custom_key refusal_answer
  custom_key-401 name [] e p = let same : malformed_custom_header name ≡ e = cc in rw (← same) refl
  custom_key-401 name (k ∷ []) e p = cc
  custom_key-401 name (k ∷ j ∷ more) e p =
      let same : malformed_custom_header name ≡ e = cc in rw (← same) refl

  bearer_key-401 :
      (words : List Text) (e : Refusal) → bearer_key words ≡ err e → (refusal_answer e).status ≡ 401
  unfolding bearer_key refusal_answer
  bearer_key-401 [] e p = let same : malformed_bearer ≡ e = cc in rw (← same) refl
  bearer_key-401 (scheme ∷ []) e p = let same : malformed_bearer ≡ e = cc in rw (← same) refl
  bearer_key-401 (scheme ∷ k ∷ []) e p = elim (Bool-cases (equal_fold scheme (codes "bearer"))) [
    | inl b ↦ absurd (ground arith)
    | inr b ↦ let same : malformed_bearer ≡ e = ground arith in rw (← same) refl
  ]
  bearer_key-401 (scheme ∷ k ∷ j ∷ more) e p =
      let same : malformed_bearer ≡ e = cc in rw (← same) refl

  local_key_of-401 :
      (provider : ProviderConfig) (e : Refusal)
      → local_key_of provider req ≡ err e
      → (refusal_answer e).status ≡ 401
  unfolding local_key_of
  local_key_of-401 provider e p = elim (Bool-cases (is_custom_header provider.api_key_prefix)) [
    | inl b ↦
        custom_key-401 provider.api_key_prefix
          (fields (header_get provider.api_key_prefix req.headers)) e (ground arith)
    | inr b ↦
        bearer_key-401 (fields (header_get (codes "Authorization") req.headers)) e (ground arith)
  ]

  credential-is_for :
      (o : Option KeyRecord) (r : KeyRecord) → credential path o ≡ ok r → is_for path o ≡ true
  unfolding credential
  credential-is_for none r p = cc
  credential-is_for (some x) r p = ground arith

  credential-err :
      (o : Option KeyRecord) (e : Refusal)
      → credential path o ≡ err e
      → (is_for path o ≡ false) × (e ≡ invalid_key)
  unfolding credential
  credential-err none e p = (refl, cc)
  credential-err (some x) e p = elim (Bool-cases (text_eq x.route path)) [
    | inl b ↦ absurd (ground arith)
    | inr b ↦ (b, ground arith)
  ]

  over_quota :
      (k : Text) (e : Refusal)
      → quota_step sha256 get daily_fails monthly_fails now cfg db
          (route_at cfg path)
          k
          path
          req.body
          (provider_at cfg path)
        ≡ err e
      → (is_empty (route_at cfg path).quota ≡ false)
        × ((verdict k).allowed ≡ false)
        × ((refusal_answer e).status ≡ 429)
        × ((refusal_answer e).detail ≡ deny_text (verdict k).deny_reason)
  unfolding quota_step refusal_answer detail_text
  over_quota k e p = elim (Bool-cases (is_empty (route_at cfg path).quota)) [
    | inl b ↦ absurd (ground arith)
    | inr b ↦ elim (Bool-cases (verdict k).allowed) [
      | inl a ↦ absurd (ground arith)
      | inr a ↦
          let same : quota_exceeded (verdict k).deny_reason ≡ e = ground arith in
          rw (← same) (b, a, refl, refl)
    ]
  ]

  -- A request is refused for one of three reasons, and the answer says which: 401 if there is no
  -- local key to be read from it; 401 if there is one, and no record of this route for it; and 429
  -- if there is a record of this route, the route names a quota and the check does not allow the
  -- request, with the reason that the check gives.
  pub refusal_exact :
      (e : Refusal)
      → auth_interceptor sha256 get daily_fails monthly_fails now cfg store db path req ≡ err e
      → NoKey e ⊎ (NoRecord e ⊎ OverQuota e)
  unfolding auth_interceptor
  refusal_exact e p = elim (Result-cases (local_key_of (provider_at cfg path) req)) [
    | inr (x, a) ↦
        let same : x ≡ e = err-injective (rw a at p) in
        let here : local_key_of (provider_at cfg path) req ≡ err e = a ∙ ap err same in
        inl (here, local_key_of-401 (provider_at cfg path) e here)
    | inl (k, a) ↦ elim (Result-cases (credential path (get_key_by_internal sha256 k store))) [
      | inr (x, b) ↦
          let same : x ≡ e = err-injective (rw (a, b) at p) in
          let (missing, kind) =
            credential-err (get_key_by_internal sha256 k store) e (b ∙ ap err same) in
          inr (inl (k, a, missing, kind, unfold refusal_answer in rw kind refl))
      | inl (r, b) ↦
          let (named, denied, status, detail) = over_quota k e (>>-eq-err _ _ (rw (a, b) at p)) in
          inr (
            inr (
              k,
              a,
              credential-is_for (get_key_by_internal sha256 k store) r b,
              named,
              denied,
              status,
              detail,
            ))
    ]
  ]
