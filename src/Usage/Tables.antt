-- ===== src/Usage/Tables.antt =====
-- internal/usage/record.go, and the tables that schema/usage.sql creates for the SQL statements
-- of internal/usage/worker.go and store.go.
-- A moment is its civil date in the server's zone and the nanoseconds since midnight, in years up
-- to 9999. Numbers of the database are exact: the engine leaves the integers only past int64.
use ai_local.Prelude.{
  Bool, List, Option, Text, [], arith, if◌then◌else◌, none, some, text_eq, text_eq_iff, true, ℕ, ℤ,
  ◌%◌, ◌&&◌, ◌++◌, ◌+◌, ◌/◌, ◌↔◌, ◌∷◌, ◌≡◌,
}

pub record Time : Type 0 where
  pub year : ℕ
  pub month : ℕ
  pub day : ℕ
  pub nanos : ℕ

abbrev pub digit : ℕ → ℕ
digit d = b'0' + d % 10

abbrev pub two_digits : ℕ → Text
two_digits n = digit (n / 10) ∷ digit n ∷ []

abbrev pub four_digits : ℕ → Text
four_digits n = digit (n / 1000) ∷ digit (n / 100) ∷ two_digits n

-- t.Format("2006-01")
unfoldable pub format_month : Time → Text
format_month t = four_digits t.year ++ b'-' ∷ two_digits t.month

-- t.Format("2006-01-02")
unfoldable pub format_date : Time → Text
unfolding format_month
format_date t = format_month t ++ b'-' ∷ two_digits t.day

-- `none` is the zero time.
pub record Record : Type 0 where
  pub local_key : Text
  pub route_path : Text
  pub client_ip : Text
  pub prompt_tokens : ℤ  -- int64
  pub completion_tokens : ℤ  -- int64
  pub total_tokens : ℤ  -- int64
  pub created_at : Option Time

-- A row of usage_logs.
pub record LogRow : Type 0 where
  pub id : ℕ
  pub local_key : Text
  pub route_path : Text
  pub client_ip : Text
  pub prompt_tokens : ℤ
  pub completion_tokens : ℤ
  pub total_tokens : ℤ
  pub created_at : Time

-- The counters of a cached row; `tokens` is daily_tokens or monthly_tokens.
pub record Totals : Type 0 where
  pub requests : ℤ
  pub prompt : ℤ
  pub completion : ℤ
  pub tokens : ℤ

-- A row of daily_usages or monthly_usages; `period` is usage_date or usage_month. The first three
-- columns are the primary key.
pub record UsageRow : Type 0 where
  pub local_key : Text
  pub route_path : Text
  pub period : Text
  pub totals : Totals
  pub updated_at : Text

-- The newest row of usage_logs stands first; `next_id` is the counter of AUTOINCREMENT.
pub record Database : Type 0 where
  pub logs : List LogRow
  pub next_id : ℕ
  pub daily : List UsageRow
  pub monthly : List UsageRow

abbrev pub empty_database : Database
empty_database = record { logs = []; next_id = 1; daily = []; monthly = [] }

-- Whether two primary keys are the same.
unfoldable pub same_key : Text → Text → Text → Text → Text → Text → Bool
same_key k r p key route period = text_eq k key && (text_eq r route && text_eq p period)

pub same_key_iff :
    (k r p key route period : Text)
    → (same_key k r p key route period ≡ true) ↔ ((k ≡ key) × (r ≡ route) × (p ≡ period))
unfolding same_key
same_key_iff k r p key route period = (
  λ e. (
    ground (arith, text_eq_iff k key),
    ground (arith, text_eq_iff r route),
    ground (arith, text_eq_iff p period),
  ),
  λ h. ground (arith, text_eq_iff k key, text_eq_iff r route, text_eq_iff p period),
)

-- Whether a row has this primary key.
abbrev pub row_matches : Text → Text → Text → UsageRow → Bool
row_matches key route period row = same_key row.local_key row.route_path row.period key route period

-- The row with a primary key.
unfoldable pub find_row : Text → Text → Text → List UsageRow → Option UsageRow
find_row key route period [] = none
find_row key route period (row ∷ rows) =
    if row_matches key route period row then some row else find_row key route period rows
