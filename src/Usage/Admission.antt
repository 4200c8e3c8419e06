-- ===== src/Usage/Admission.antt =====
-- What the quota check admits.
use ai_local.Prelude.{
  +64_exact, Bool, IsInt64, List, Option-cases, Text, arith, codes, err, false, if◌then◌else◌, inl,
  inr, none, ok, pos, refl, some, text_eq, true, ℤ, ◌+ℤ◌, ◌<ℤ◌, ◌↔◌, ◌≡◌, ◌≤ℤ◌, ◌⊎◌,
}
use ai_local.Usage.Tables.{Database, Time, LogRow, UsageRow, format_date, format_month}
use ai_local.Usage.Quota.{
  row_tokens, query_tokens, check_limit, decide_quota, CheckResult, DenyReason, judge,
  when_positive, daily_exceeded, monthly_exceeded, zero_result, query_failed,
}
use ai_local.Usage.Ledger.{IsBalanced, cached}
use ai_local.Apml.{shared, QuotaDetail}
use ai_local.Usage.Pool.{IsPooled}
use ai_local.Usage.Audit.{logged_on_route, summary, logged, summary_tokens}

-- The database says of every key and of every route what the audit log says.
pub record IsExact (db : Database) : Type 0 where
  pub balanced : IsBalanced db
  pub pooled : IsPooled db

-- The tokens that a quota of this mode counts against a request.
unfoldable pub used : (Time → Text) → Text → Text → Text → Text → Database → ℤ
used period mode key route p db =
    if text_eq mode shared
    then logged_on_route period route p db.logs
    else logged period key route p db.logs

row_tokens-logged :
    (period : Time → Text) (k r p : Text) (rows : List UsageRow) (ls : List LogRow)
    → cached k r p rows ≡ summary period k r p ls
    → row_tokens k r p rows ≡ logged period k r p ls
unfolding row_tokens
row_tokens-logged period k r p rows ls e = ground (arith, summary_tokens period k r p ls)

query_daily :
    (db : Database) (mode key route p : Text)
    → IsExact db
    → query_tokens false db mode key route (codes "daily") p
      ≡ ok (used format_date mode key route p db)
unfolding query_tokens used text_eq
query_daily db mode key route p x =
    rw
      (
        x.pooled.daily route p,
        row_tokens-logged format_date key route p db.daily db.logs (x.balanced.daily key route p),
      )
      (ground arith)

query_monthly :
    (db : Database) (mode key route p : Text)
    → IsExact db
    → query_tokens false db mode key route (codes "monthly") p
      ≡ ok (used format_month mode key route p db)
unfolding query_tokens used text_eq
query_monthly db mode key route p x =
    rw
      (
        x.pooled.monthly route p,
        row_tokens-logged format_month key route p db.monthly db.logs
            (x.balanced.monthly key route p),
      )
      (ground arith)

-- A limit that is not positive binds nobody.
abbrev pub Fits : ℤ → ℤ → ℤ → Type 0
Fits limit tokens estimated = (limit ≤ℤ pos 0) ⊎ (tokens +ℤ estimated ≤ℤ limit)

within_limit :
    (reason : ℤ → ℤ → ℤ → DenyReason) (limit tokens estimated : ℤ)
    → IsInt64 (tokens +ℤ estimated)
    → (when_positive limit (check_limit reason (ok tokens) limit estimated) ≡ none)
      ↔ Fits limit tokens estimated
unfolding check_limit
within_limit reason limit tokens estimated small =
    let exact = +64_exact tokens estimated small in (λ e. ground arith, λ f. ground arith)

-- What a limit says when it says something: a denial that carries its numbers.
denied_by :
    (reason : ℤ → ℤ → ℤ → DenyReason) (limit tokens estimated : ℤ) (r : CheckResult)
    → when_positive limit (check_limit reason (ok tokens) limit estimated) ≡ some r
    → r.allowed ≡ false
unfolding check_limit
denied_by reason limit tokens estimated r e = ground arith

judge_exact :
    (quota : QuotaDetail) (today month estimated : ℤ)
    → IsInt64 (today +ℤ estimated)
    → IsInt64 (month +ℤ estimated)
    → ((judge quota (ok today) (ok month) estimated).allowed ≡ true)
      ↔ (Fits quota.daily today estimated × Fits quota.monthly month estimated)
unfolding judge
judge_exact quota today month estimated small_d small_m =
    let day = within_limit daily_exceeded quota.daily today estimated small_d in
    let mon = within_limit monthly_exceeded quota.monthly month estimated small_m in
    elim (Option-cases
      (when_positive quota.daily (check_limit daily_exceeded (ok today) quota.daily estimated))) [
        | inr (r, e) ↦
            rw (e, judge)
              (
                λ h. ground (arith, denied_by daily_exceeded quota.daily today estimated r e),
                λ f. ground (arith, day.1 f.0),
              )
        | inl e ↦
            elim (Option-cases (
              when_positive quota.monthly
                (check_limit monthly_exceeded (ok month) quota.monthly estimated))) [
                  | inr (r, g) ↦
                      rw (e, g, judge)
                        (
                          λ h.
                              ground (
                                arith,
                                denied_by monthly_exceeded quota.monthly month estimated r g,
                              ),
                          λ f. ground (arith, mon.1 f.1),
                        )
                  | inl g ↦ rw (e, g, judge) (λ h. (day.0 e, mon.0 g), λ f. refl)
                ]
      ]

module _ (db : Database) (now : Time) (key route : Text) (quota : QuotaDetail) (estimated : ℤ) where
  -- On a database in step with its log, whose queries answer and whose sums stay in int64, a
  -- request is allowed exactly if, for each limit that is positive, the tokens that the log counts
  -- against it and the estimate stay within the limit: for the day and for the month, over the
  -- request's key, or over all keys of its route where the quota is shared.
  pub decide_quota_exact :
      IsExact db
      → IsInt64 (used format_date quota.mode key route (format_date now) db +ℤ estimated)
      → IsInt64 (used format_month quota.mode key route (format_month now) db +ℤ estimated)
      → ((decide_quota false false db now key route quota estimated).allowed ≡ true) ↔ (
          Fits quota.daily (used format_date quota.mode key route (format_date now) db) estimated
          × Fits quota.monthly
              (used format_month quota.mode key route (format_month now) db)
              estimated)
  unfolding decide_quota
  decide_quota_exact x small_d small_m =
      rw
        (
          query_daily db quota.mode key route (format_date now) x,
          query_monthly db quota.mode key route (format_month now) x,
        )
        (judge_exact quota (used format_date quota.mode key route (format_date now) db)
          (used format_month quota.mode key route (format_month now) db) estimated small_d small_m)

failing_query :
    (db : Database) (mode key route period value : Text)
    → (period ≡ codes "daily") ⊎ (period ≡ codes "monthly")
    → query_tokens true db mode key route period value ≡ err query_failed
unfolding query_tokens text_eq
failing_query db mode key route period value (inl e) = rw e (ground arith)
failing_query db mode key route period value (inr e) = rw e (ground arith)

-- A daily limit that does not keep the check from going on: it binds nobody, or its query answers
-- and the request is within it.
abbrev pub PassesDaily : Bool → Database → Time → Text → Text → QuotaDetail → ℤ → Type 0
PassesDaily daily_fails db now key route quota estimated =
    (quota.daily ≤ℤ pos 0)
    ⊎ ((daily_fails ≡ false)
        × IsExact db
        × IsInt64 (used format_date quota.mode key route (format_date now) db +ℤ estimated)
        × Fits quota.daily (used format_date quota.mode key route (format_date now) db) estimated)

-- A query that the check asks and that fails.
abbrev pub FailsQuery : Bool → Bool → Database → Time → Text → Text → QuotaDetail → ℤ → Type 0
FailsQuery daily_fails monthly_fails db now key route quota estimated =
    ((pos 0 <ℤ quota.daily) × (daily_fails ≡ true))
    ⊎ ((pos 0 <ℤ quota.monthly)
        × (monthly_fails ≡ true)
        × PassesDaily daily_fails db now key route quota estimated)

passes_daily :
    (daily_fails : Bool) (db : Database) (now : Time) (key route : Text) (quota : QuotaDetail)
    (estimated : ℤ)
    → PassesDaily daily_fails db now key route quota estimated
    → when_positive quota.daily (
        check_limit daily_exceeded
          (query_tokens daily_fails db quota.mode key route (codes "daily") (format_date now))
          quota.daily
          estimated)
      ≡ none
passes_daily daily_fails db now key route quota estimated (inl free) = ground arith
passes_daily daily_fails db now key route quota estimated (inr (answers, x, small, fits)) =
    rw (answers, query_daily db quota.mode key route (format_date now) x)
      ((within_limit daily_exceeded quota.daily
          (used format_date quota.mode key route (format_date now) db) estimated small).1
        fits)

-- The check fails open. If the query for a positive daily limit fails, or the query for a positive
-- monthly limit fails and the daily limit lets the request go on, since it is not positive, or its
-- query answers, from rows in step with the log and with a sum in int64, and the request is within
-- it, then the request is allowed, and the result carries no numbers.
pub decide_quota_fails_open :
    (daily_fails monthly_fails : Bool) (db : Database) (now : Time) (key route : Text)
    (quota : QuotaDetail) (estimated : ℤ)
    → FailsQuery daily_fails monthly_fails db now key route quota estimated
    → decide_quota daily_fails monthly_fails db now key route quota estimated ≡ zero_result
unfolding decide_quota
decide_quota_fails_open daily_fails monthly_fails db now key route quota estimated (inl (d, e)) =
    rw (e, failing_query db quota.mode key route (codes "daily") (format_date now) (inl refl))
      (unfold judge check_limit in ground arith)
decide_quota_fails_open daily_fails monthly_fails db now key route quota estimated
      (inr (m, e, passes)) =
    rw (e, failing_query db quota.mode key route (codes "monthly") (format_month now) (inr refl))
      (unfold judge check_limit in
        ground (arith, passes_daily daily_fails db now key route quota estimated passes))
