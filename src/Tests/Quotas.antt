-- ===== src/Tests/Quotas.antt =====
-- Quota decisions on the empty ledger.
use ai_local.Prelude.{
  IsInt64, Text, arith, codes, false, inr, pos, refl, text_eq, true, ◌+ℤ◌, ◌↔◌, ◌≡◌,
}
use ai_local.Apml.{QuotaDetail, per_key}
use ai_local.Usage.Tables.{Time, empty_database, format_date, format_month}
use ai_local.Usage.Ledger.{empty-IsBalanced}
use ai_local.Usage.Pool.{empty-IsPooled}
use ai_local.Usage.Audit.{logged}
use ai_local.Usage.Quota.{decide_quota, zero_result}
use ai_local.Usage.Admission.{IsExact, decide_quota_exact, decide_quota_fails_open, used, Fits}

abbrev noon : Time
noon = record { year = 2026; month = 7; day = 1; nanos = 0 }

abbrev small : QuotaDetail
small = record { mode = per_key; daily = pos 100; monthly = pos 1000 }

empty-IsExact : IsExact empty_database
empty-IsExact = record { balanced = empty-IsBalanced; pooled = empty-IsPooled }

in_range :
    (period : Time → Text) (p : Text)
    → IsInt64 (used period per_key (codes "k") (codes "/claude") p empty_database +ℤ pos 60)
unfolding used text_eq logged ◌+ℤ◌
in_range period p = omega arith

decide_quota_exact_example :
    ((decide_quota false false empty_database noon
        (codes "k")
        (codes "/claude")
        small
        (pos 60)).allowed
      ≡ true)
    ↔ (Fits
          (pos 100)
          (used format_date per_key (codes "k") (codes "/claude") (format_date noon) empty_database)
          (pos 60)
        × Fits
            (pos 1000)
            (used format_month per_key
              (codes "k")
              (codes "/claude")
              (format_month noon)
              empty_database)
            (pos 60))
decide_quota_exact_example =
    decide_quota_exact empty_database noon (codes "k") (codes "/claude") small (pos 60)
      empty-IsExact (in_range format_date (format_date noon))
      (in_range format_month (format_month noon))

Fits-today :
    Fits
      (pos 100)
      (used format_date per_key (codes "k") (codes "/claude") (format_date noon) empty_database)
      (pos 60)
unfolding used text_eq logged ◌+ℤ◌
Fits-today = inr (omega arith)

decide_quota_fails_open_example :
    decide_quota false true empty_database noon (codes "k") (codes "/claude") small (pos 60)
    ≡ zero_result
decide_quota_fails_open_example =
    decide_quota_fails_open false true empty_database noon (codes "k") (codes "/claude") small
      (pos 60)
      (inr (
        omega arith,
        refl,
        inr (refl, empty-IsExact, in_range format_date (format_date noon), Fits-today),
      ))
