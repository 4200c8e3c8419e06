-- ===== src/Tests/Reports.antt =====
-- Reports over two days of one key.
use ai_local.Prelude.{
  Text, [], codes, false, map, ok, order_by, place, pos, refl, select, text_eq, text_leb, ℕ, ◌∷◌,
  ◌≡◌,
}
use ai_local.Usage.Tables.{UsageRow, Database, empty_database}
use ai_local.Usage.Stats.{get_daily_stats, daily_row, is_between, newer}

abbrev row_of : Text → ℕ → UsageRow
row_of period n = record {
  local_key = codes "k";
  route_path = codes "/openai";
  period = period;
  totals = record { requests = pos 1; prompt = pos n; completion = pos 0; tokens = pos n };
  updated_at = codes "2026-07-02 10:00:00";
}

abbrev two_days : Database
two_days = record empty_database {
  daily = row_of (codes "2026-07-01") 5 ∷ row_of (codes "2026-07-02") 7 ∷ [];
  monthly = row_of (codes "2026-07") 12 ∷ row_of (codes "2025-12") 1 ∷ [];
}

-- The newer day comes first.
both_days :
    get_daily_stats false two_days (codes "2026-07-01") (codes "2026-07-31")
    ≡ ok (map daily_row (row_of (codes "2026-07-02") 7 ∷ row_of (codes "2026-07-01") 5 ∷ []))
unfolding get_daily_stats order_by place select is_between text_leb daily_row newer text_eq
both_days = refl
