-- ===== src/Usage/Stats.antt =====
-- GetDailyStats, GetMonthlyStats and GetVerboseLogs of internal/usage/store.go.
-- The Boolean says that the database fails the query, or a row of it. `timestamp` is the text that
-- the engine gives for a stored time.
use ai_local.Prelude.{
  Bool, Bool-cases, List, Result, Text, [], arith, err, if◌then◌else◌, inl, inr, leb, ltb, ltb_ℤ,
  map, negsuc, not, ok, order_by, pos, refl, select, suc, take, text_eq, text_leb, zero, ℕ, ℤ, ◌&&◌,
  ◌++◌, ◌+◌, ◌/◌, ◌<◌, ◌^◌, ◌∷◌, ◌≡◌,
}
use ai_local.Usage.Tables.{UsageRow, LogRow, Database, Time, four_digits, digit}

pub record DailyStatRow : Type 0 where
  pub date : Text
  pub route_path : Text
  pub local_key : Text
  pub total_requests : ℤ
  pub prompt_tokens : ℤ
  pub completion_tokens : ℤ
  pub total_tokens : ℤ
  pub last_activity : Text

pub record MonthlyStatRow : Type 0 where
  pub month : Text
  pub route_path : Text
  pub local_key : Text
  pub total_requests : ℤ
  pub prompt_tokens : ℤ
  pub completion_tokens : ℤ
  pub total_tokens : ℤ

pub record VerboseStatRow : Type 0 where
  pub id : ℕ
  pub timestamp : Text
  pub local_key : Text
  pub route_path : Text
  pub client_ip : Text
  pub prompt_tokens : ℤ
  pub completion_tokens : ℤ
  pub total_tokens : ℤ

pub data StatsError : Type 0 where
  daily_query_failed monthly_query_failed verbose_query_failed : StatsError

-- ORDER BY period DESC, tokens DESC
unfoldable pub newer : UsageRow → UsageRow → Bool
newer a b =
    if text_eq a.period b.period
    then not (ltb_ℤ a.totals.tokens b.totals.tokens)
    else text_leb b.period a.period

-- WHERE usage_date BETWEEN ? AND ?
unfoldable pub is_between : Text → Text → UsageRow → Bool
is_between first last row = text_leb first row.period && text_leb row.period last

unfoldable pub daily_row : UsageRow → DailyStatRow
daily_row row = record {
  date = row.period;
  route_path = row.route_path;
  local_key = row.local_key;
  total_requests = row.totals.requests;
  prompt_tokens = row.totals.prompt;
  completion_tokens = row.totals.completion;
  total_tokens = row.totals.tokens;
  last_activity = row.updated_at;
}

unfoldable pub get_daily_stats :
    Bool → Database → Text → Text → Result StatsError (List DailyStatRow)
get_daily_stats fails db start_date end_date =
    if fails
    then err daily_query_failed
    else ok (map daily_row (order_by newer (select (is_between start_date end_date) db.daily)))

-- The decimal digits of a number below 10 ^ n.
unfoldable pub decimal : ℕ → ℕ → Text
decimal zero year = []
decimal (suc n) year =
    let rest = decimal n (year / 10) in
    if ltb year 10 then digit year ∷ [] else rest ++ digit year ∷ []

-- Enough digits are enough: one more changes nothing.
decimal_enough :
    (n year : ℕ) → year < 10 ^ suc n → decimal (suc (suc n)) year ≡ decimal (suc n) year
unfolding decimal
decimal_enough zero year h = ground arith
decimal_enough (suc n) year h = elim (Bool-cases (ltb year 10)) [
  | inl b ↦ rw b refl
  | inr b ↦ rw b (rw (decimal_enough n (year / 10) (omega arith)) refl)
]

-- %d of an int64
unfoldable pub show_int : ℤ → Text
show_int (pos n) = decimal 20 n
show_int (negsuc n) = b'-' ∷ decimal 20 (n + 1)

-- fmt.Sprintf("%04d", year), for a year of int32 that is not negative
unfoldable pub year_text : ℕ → Text
year_text year = if ltb year 10000 then four_digits year else decimal 10 year

-- WHERE substr(usage_month, 1, 4) = ?
unfoldable pub is_of_year : ℕ → UsageRow → Bool
is_of_year year row = text_eq (take 4 row.period) (year_text year)

unfoldable pub monthly_row : UsageRow → MonthlyStatRow
monthly_row row = record {
  month = row.period;
  route_path = row.route_path;
  local_key = row.local_key;
  total_requests = row.totals.requests;
  prompt_tokens = row.totals.prompt;
  completion_tokens = row.totals.completion;
  total_tokens = row.totals.tokens;
}

unfoldable pub get_monthly_stats : Bool → Database → ℕ → Result StatsError (List MonthlyStatRow)
get_monthly_stats fails db year =
    if fails
    then err monthly_query_failed
    else ok (map monthly_row (order_by newer (select (is_of_year year) db.monthly)))

module _ (timestamp : Time → Text) where
  unfoldable pub verbose_row : LogRow → VerboseStatRow
  verbose_row row = record {
    id = row.id;
    timestamp = timestamp row.created_at;
    local_key = row.local_key;
    route_path = row.route_path;
    client_ip = row.client_ip;
    prompt_tokens = row.prompt_tokens;
    completion_tokens = row.completion_tokens;
    total_tokens = row.total_tokens;
  }

  -- ORDER BY id DESC LIMIT ?, with a limit that is not negative
  unfoldable pub get_verbose_logs : Bool → Database → ℕ → Result StatsError (List VerboseStatRow)
  get_verbose_logs fails db limit =
      if fails
      then err verbose_query_failed
      else ok (map verbose_row (take limit (order_by (λ (a b : LogRow). leb b.id a.id) db.logs)))
