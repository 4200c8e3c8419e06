-- ===== src/Usage/Quota.antt =====
-- QuotaCheck, queryTokens and estimateInputTokens of internal/usage/store.go.
-- gjson is the parameter `get`.
use ai_local.Prelude.{
  Bool, List, Option, Result, Text, [], codes, eqb_ℤ, err, false, if◌then◌else◌, length, ltb_ℤ,
  negsuc, none, ok, pos, some, sub_ℕ, suc, text_eq, true, wrap64, ℤ, ◌&&◌, ◌*◌, ◌+64◌, ◌+ℤ◌, ◌/◌,
  ◌||◌, ◌∷◌,
}
use ai_local.Apml.{QuotaDetail, ProviderConfig, shared}
use ai_local.Apml.Validate.{is_empty}
use ai_local.Usage.Tables.{Database, Time, UsageRow, find_row, format_date, format_month}
use ai_local.Json.{JsonGet}

-- Why a request is denied: the tokens used, the estimate and the limit, as the message has them.
pub data DenyReason : Type 0 where
  no_reason : DenyReason
  daily_exceeded monthly_exceeded : ℤ → ℤ → ℤ → DenyReason

pub record CheckResult : Type 0 where
  pub allowed : Bool
  pub deny_reason : DenyReason
  pub current_tokens : ℤ
  pub quota_limit : ℤ
  pub estimated : ℤ

abbrev pub zero_result : CheckResult
zero_result = record {
  allowed = true;
  deny_reason = no_reason;
  current_tokens = pos 0;
  quota_limit = pos 0;
  estimated = pos 0;
}

-- SELECT COALESCE(SUM(tokens), 0) … WHERE route_path = ? AND period = ?
unfoldable pub sum_tokens : Text → Text → List UsageRow → ℤ
sum_tokens route period [] = pos 0
sum_tokens route period (row ∷ rows) =
    let rest = sum_tokens route period rows in
    if text_eq row.route_path route && text_eq row.period period
    then rest +ℤ row.totals.tokens
    else rest

-- SELECT tokens … WHERE local_key = ? AND route_path = ? AND period = ?, and 0 for no row
unfoldable pub row_tokens : Text → Text → Text → List UsageRow → ℤ
row_tokens key route period rows = elim (find_row key route period rows) [
  | none ↦ pos 0
  | some row ↦ row.totals.tokens
]

pub data QueryError : Type 0 where
  unknown_period : Text → QueryError
  query_failed : QueryError

-- `failing` says that the database refuses the query.
unfoldable pub query_tokens :
    Bool → Database → Text → Text → Text → Text → Text → Result QueryError ℤ
query_tokens failing db mode key route period value =
    let tokens = λ (rows : List UsageRow).
      if failing
      then err query_failed
      else if text_eq mode shared
      then ok (sum_tokens route value rows)
      else ok (row_tokens key route value rows) in
    if text_eq period (codes "daily")
    then tokens db.daily
    else if text_eq period (codes "monthly")
    then tokens db.monthly
    else err (unknown_period period)

-- Go's `/` on int64 rounds towards zero.
unfoldable pub quot_ten : ℤ → ℤ
quot_ten (pos n) = pos (n / 10)
quot_ten (negsuc n) = sub_ℕ 0 (suc n / 10)

module _ (get : JsonGet) where
  unfoldable pub estimate_input_tokens : Text → Option ProviderConfig → ℤ
  estimate_input_tokens body none = pos 0
  estimate_input_tokens body (some provider) =
      if is_empty provider.input_message || is_empty body
      then pos 0
      else let result = get body provider.input_message in
        if result.exists then quot_ten (wrap64 (pos (length result.raw * 6))) else pos 0

-- One of the two limits: the verdict, or `none` to go on with what stands below.
unfoldable pub check_limit :
    (ℤ → ℤ → ℤ → DenyReason) → Result QueryError ℤ → ℤ → ℤ → Option CheckResult
check_limit reason (err e) limit estimated = some zero_result
check_limit reason (ok current) limit estimated =
    if ltb_ℤ limit (current +64 estimated)
    then some (record {
      allowed = false;
      deny_reason = reason current estimated limit;
      current_tokens = current;
      quota_limit = limit;
      estimated = estimated;
    })
    else none

-- `if limit > 0 { … }`
abbrev pub when_positive : ℤ → Option CheckResult → Option CheckResult
when_positive limit verdict = if ltb_ℤ (pos 0) limit then verdict else none

-- The verdict on an estimate, from the answers to the two queries.
unfoldable pub judge : QuotaDetail → Result QueryError ℤ → Result QueryError ℤ → ℤ → CheckResult
judge quota today this_month estimated =
    elim (when_positive quota.daily (check_limit daily_exceeded today quota.daily estimated)) [
      | some verdict ↦ verdict
      | none ↦
          elim (when_positive quota.monthly
            (check_limit monthly_exceeded this_month quota.monthly estimated)) [
              | some verdict ↦ verdict
              | none ↦ record zero_result { estimated = estimated }
            ]
    ]

-- The check at a moment, `now`; a Boolean for each of the two queries says whether it fails. (A
-- query that the source skips is asked here too, and its answer is not looked at.)
unfoldable pub decide_quota :
    Bool → Bool → Database → Time → Text → Text → QuotaDetail → ℤ → CheckResult
decide_quota daily_fails monthly_fails db now key route quota estimated =
    judge quota (query_tokens daily_fails db quota.mode key route (codes "daily") (format_date now))
      (query_tokens monthly_fails db quota.mode key route (codes "monthly") (format_month now))
      estimated

module _ (get : JsonGet) where
  unfoldable pub quota_check :
      Bool
      → Bool
      → Database
      → Time
      → Text
      → Text
      → QuotaDetail
      → Text
      → Option ProviderConfig
      → CheckResult
  quota_check daily_fails monthly_fails db now key route quota body provider =
      if eqb_ℤ quota.daily (pos 0) && eqb_ℤ quota.monthly (pos 0)
      then zero_result
      else decide_quota daily_fails monthly_fails db now key route quota
          (estimate_input_tokens get body provider)
