-- ===== src/Usage/Reports.antt =====
-- What the statistics report.
use ai_local.Prelude.{
  Bool, Bool-cases, List, Ordered, Permᴰ, Text, arith, false, inl, inr, map, ok, order_by,
  order_by-Ordered, order_by-Permᴰ, refl, select, sym, text_eq, text_eq_iff, text_leb_total, true,
  ℕ, ◌≡◌,
}
use ai_local.Usage.Tables.{UsageRow, Database}
use ai_local.Usage.Stats.{
  newer, is_between, daily_row, get_daily_stats, get_monthly_stats, is_of_year, monthly_row,
}

newer_total : (a b : UsageRow) → newer a b ≡ false → newer b a ≡ true
unfolding newer
newer_total a b e = elim (Bool-cases (text_eq a.period b.period)) [
  | inl p ↦
      let same = (text_eq_iff a.period b.period).0 p in
      let back = (text_eq_iff b.period a.period).1 (sym same) in ground arith
  | inr p ↦ elim (Bool-cases (text_eq b.period a.period)) [
    | inl q ↦
        let same = (text_eq_iff b.period a.period).0 q in
        let back = (text_eq_iff a.period b.period).1 (sym same) in ground arith
    | inr q ↦ ground (arith, text_leb_total b.period a.period)
  ]
]

-- The rows of a report: the cached rows that its condition selects, each once, of which none with
-- an earlier period, or with fewer tokens in the same period, stands before another.
pub record IsReport (keep : UsageRow → Bool) (table rows : List UsageRow) : Type 0 where
  pub complete : Permᴰ rows (select keep table)
  pub ordered : Ordered newer rows

report :
    (keep : UsageRow → Bool) (table : List UsageRow)
    → IsReport keep table (order_by newer (select keep table))
report keep table = record {
  complete = order_by-Permᴰ newer (select keep table);
  ordered = order_by-Ordered newer newer_total (select keep table);
}

-- Unless the database fails, the daily statistics list exactly the cached days of the range, each
-- once, newest day first and within a day the row with the most tokens first.
pub get_daily_stats_lem :
    (db : Database) (start_date end_date : Text)
    → (rows : List UsageRow) × (get_daily_stats false db start_date end_date
        ≡ ok (map daily_row rows))
      × IsReport (is_between start_date end_date) db.daily rows
unfolding get_daily_stats
get_daily_stats_lem db start_date end_date = (
  order_by newer (select (is_between start_date end_date) db.daily),
  refl,
  report (is_between start_date end_date) db.daily,
)

-- Unless the database fails, the monthly statistics list exactly the cached months of the year,
-- each once, newest month first and within a month the row with the most tokens first.
pub get_monthly_stats_lem :
    (db : Database) (year : ℕ)
    → (rows : List UsageRow) × (get_monthly_stats false db year ≡ ok (map monthly_row rows))
      × IsReport (is_of_year year) db.monthly rows
unfolding get_monthly_stats
get_monthly_stats_lem db year = (
  order_by newer (select (is_of_year year) db.monthly),
  refl,
  report (is_of_year year) db.monthly,
)
