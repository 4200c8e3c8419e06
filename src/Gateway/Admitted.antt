-- ===== src/Gateway/Admitted.antt =====
-- The quota over a whole course of the gateway: QuotaCheck of internal/usage/store.go where
-- authInterceptor of internal/proxy/proxy.go calls it.
use ai_local.Prelude.{
  Bool-cases, IsInt64, List, Text, ap, arith, eqb_ℤ, false, inl, inr, lookup, pos, some, sym, true,
  ℕ, ℤ, ◌&&◌, ◌+ℤ◌, ◌∙◌, ◌≡◌, ◌⊎◌,
}
use ai_local.Apml.{ProviderConfig, QuotaDetail, ApmlConfig, RouteConfig}
use ai_local.Json.{JsonGet}
use mathlib.Core.Path.{subst}
use ai_local.Gateway.{Gateway}
use ai_local.Gateway.Reach.{Reach}
use ai_local.Gateway.Ledger.{Reach-IsSound}
use ai_local.Gateway.Sound.{serve_rests}
use ai_local.Proxy.Gate.{provider_at}
use ai_local.Proxy.Respond.{bytes_of}
use ai_local.Usage.Admission.{Fits, IsExact, decide_quota_exact, used}
use ai_local.Usage.Quota.{estimate_input_tokens, quota_check}
use ai_local.Usage.Tables.{Database, Time, format_date, format_month}
use ai_local.Proxy.Rewrite.{JsonSet, Url}
use ai_local.Proxy.Auth.{or_zero, zero_route, zero_quota}
use ai_local.Keystore.{KeyRecord}
use ai_local.Apml.Validate.{is_empty}
use ai_local.Proxy.Serve.{Arrival, Flight, forwarded, serve}

module _ (get : JsonGet) (db : Database) (now : Time) (key path : Text) (quota : QuotaDetail)
    (body : Text) (provider : ProviderConfig) where
  -- What a request adds by the estimate.
  abbrev pub estimate : ℤ
  estimate = estimate_input_tokens get body (some provider)

  abbrev pub today : ℤ
  today = used format_date quota.mode key path (format_date now) db

  abbrev pub this_month : ℤ
  this_month = used format_month quota.mode key path (format_month now) db

  -- Both limits leave room for the request.
  abbrev pub FitsBoth : Type 0
  FitsBoth = Fits quota.daily today estimate × Fits quota.monthly this_month estimate

  abbrev pub IsSmall : Type 0
  IsSmall = IsInt64 (today +ℤ estimate) × IsInt64 (this_month +ℤ estimate)

  quota_check_fits :
      IsExact db
      → IsSmall
      → (quota_check get false false db now key path quota body (some provider)).allowed ≡ true
      → FitsBoth
  unfolding quota_check
  quota_check_fits x (d, m) e =
      elim (Bool-cases (eqb_ℤ quota.daily (pos 0) && eqb_ℤ quota.monthly (pos 0))) [
        | inl z ↦ (inl (ground arith), inl (ground arith))
        | inr z ↦ (decide_quota_exact db now key path quota estimate x d m).0 (ground arith)
      ]

module _ (sha256 : Text → List ℕ) (get : JsonGet) (set : JsonSet) (set_url : Url → Url → Url)
    (cfg : ApmlConfig) where
  named_fits :
      (db : Database) (now : Time) (route : RouteConfig) (key path body : Text)
      (provider : ProviderConfig) (quota : QuotaDetail)
      → is_empty route.quota ≡ false
      → lookup route.quota cfg.quotas ≡ some quota
      → IsExact db
      → IsSmall get db now key path quota body provider
      → (is_empty route.quota ≡ true)
        ⊎ ((quota_check get false false db now key path
              (or_zero zero_quota (lookup route.quota cfg.quotas))
              body
              (some provider)).allowed
            ≡ true)
      → FitsBoth get db now key path quota body provider
  named_fits db now route key path body provider quota named found x small (inl none_named) =
      absurd (ground arith)
  named_fits db now route key path body provider quota named found x small (inr allows) =
      quota_check_fits get db now key path quota body provider x small (
        ap
          (λ q.
            (quota_check get false false db now key path (or_zero zero_quota q) body
              (some provider)).allowed)
          (sym found)
        ∙ allows)

  module _ (before : Database) where
    -- The quota holds in any course of events. Whatever has happened to a gateway that started on a
    -- database in step with its log, a request that it sends upstream, on a route that names a
    -- quota of the configuration, is within both of its limits where they are positive: the tokens
    -- that the audit log counts then for its key, or for its route where the quota is shared, on
    -- the day and in the month, and the estimate for the request add up to no more, if the queries
    -- answer and these sums stay in int64.
    pub forwarded_fits :
        {seen : List KeyRecord} {g : Gateway} (now : Time) (path : Text) (target : Url)
        (a : Arrival) (f : Flight) (route : RouteConfig) (quota : QuotaDetail)
        → IsExact before
        → Reach sha256 get set set_url cfg before seen g
        → lookup path cfg.routes ≡ some route
        → is_empty route.quota ≡ false
        → lookup route.quota cfg.quotas ≡ some quota
        → IsSmall get g.backend.db now f.session.local_key path quota
            (bytes_of a.body)
            (provider_at cfg path)
        → serve get set set_url sha256 false false now cfg g.store g.backend.db path target a
          ≡ forwarded f
        → FitsBoth get g.backend.db now f.session.local_key path quota
            (bytes_of a.body)
            (provider_at cfg path)
    forwarded_fits {g} now path target a f route quota x course known named found small sent =
        let sound = Reach-IsSound sha256 get set set_url cfg before x course in
        let (here, (r, read, registered, on_route, real_key, alias, client_ip, within)) =
          serve_rests sha256 get set set_url cfg false false now g.store g.backend.db path target a
            f sent in
        named_fits g.backend.db now route f.session.local_key path (bytes_of a.body)
          (provider_at cfg path) quota named found sound.exact small
          (subst
            (λ (x : RouteConfig).
              (is_empty x.quota ≡ true)
              ⊎ ((quota_check get false false g.backend.db now f.session.local_key path
                    (or_zero zero_quota (lookup x.quota cfg.quotas)) (bytes_of a.body)
                    (some (provider_at cfg path))).allowed
                  ≡ true))
            (ap (or_zero zero_route) known) within)
