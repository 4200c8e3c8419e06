-- ===== src/Usage/Reported.antt =====
-- What the daily statistics of internal/usage/store.go say, against the audit log.
use ai_local.Prelude.{
  Bool-cases, List, Memᴰ, Memᴰ-map, Memᴰ-mapped, Memᴰ-order_by, Memᴰ-select, Memᴰ-selected, Option,
  Option-cases, Text, [], ap, arith, false, inl, inr, map, none, ok, order_by, refl, select, some,
  sym, text_leb, true, ◌↔◌, ◌∙◌, ◌∷◌, ◌≡◌,
}
use ai_local.Usage.Audit.{StaysInteger, summary}
use ai_local.Usage.Ledger.{cached}
use ai_local.Usage.Shutdown.{IsSound, schedule-IsSound}
use ai_local.Usage.Stats.{DailyStatRow, daily_row, get_daily_stats, is_between, newer}
use ai_local.Usage.Tables.{row_matches, same_key_iff, Totals, UsageRow, format_date, find_row}
use ai_local.Usage.Unique.{IsUnique, run-IsUnique, row_of, row_of-found}
use ai_local.Usage.Worker.{Event, UsageBackend, run}
use mathlib.Core.Path.{subst}

-- The counters of a line of the report.
abbrev pub totals_of : DailyStatRow → Totals
totals_of x = record {
  requests = x.total_requests;
  prompt = x.prompt_tokens;
  completion = x.completion_tokens;
  tokens = x.total_tokens;
}

-- A line of the report for a key, a route and a day, with its counters.
pub record IsLineOf (key route day : Text) (t : Totals) (x : DailyStatRow) : Type 0 where
  pub local_key : x.local_key ≡ key
  pub route_path : x.route_path ≡ route
  pub date : x.date ≡ day
  pub totals : totals_of x ≡ t

abbrev pub IsWithin : Text → Text → Text → Type 0
IsWithin first last day = (text_leb first day ≡ true) × (text_leb day last ≡ true)

reported :
    (first last key route day : Text) (t : Totals) (rows : List UsageRow) (x : DailyStatRow)
    → IsUnique rows
    → Memᴰ x (map daily_row (order_by newer (select (is_between first last) rows)))
    → IsLineOf key route day t x
    → IsWithin first last day × (cached key route day rows ≡ some t)
unfolding daily_row is_between
reported first last key route day t rows x u m l =
    let (row, n, e) = Memᴰ-map daily_row x _ m in
    let (there, within) =
      Memᴰ-select (is_between first last) row rows
        ((Memᴰ-order_by newer row (select (is_between first last) rows)).0 n) in
    let found = row_of-found row rows u there in
    let same : daily_row row ≡ x = sym e in
    line row found within (subst (IsLineOf key route day t) e l)
  where
    line :
        (row : UsageRow)
        → row_of row rows ≡ some row
        → is_between first last row ≡ true
        → IsLineOf key route day t (daily_row row)
        → IsWithin first last day × (cached key route day rows ≡ some t)
    line row found within k =
        rw (← k.local_key, ← k.route_path, ← k.date, ← k.totals)
          (
            (ground arith, ground arith),
            ap (λ (o : Option UsageRow). elim o [ none ↦ none | some r ↦ some r.totals ]) found,
          )

found_row :
    (key route day : Text) (row : UsageRow) (rows : List UsageRow)
    → find_row key route day rows ≡ some row
    → Memᴰ row rows × (row.local_key ≡ key) × (row.route_path ≡ route) × (row.period ≡ day)
unfolding find_row
found_row key route day row [] e = cc
found_row key route day row (x ∷ rows) e = elim (Bool-cases (row_matches key route day x)) [
  | inl h ↦
      let same : x ≡ row = ground arith in
      let (a, b, c) = (same_key_iff x.local_key x.route_path x.period key route day).0 h in
      (Memᴰ.head (sym same), rw (← same) a, rw (← same) b, rw (← same) c)
  | inr h ↦
      let (m, a, b, c) = found_row key route day row rows (ground arith) in (Memᴰ.tail m, a, b, c)
]

in_report :
    (first last key route day : Text) (t : Totals) (rows : List UsageRow)
    → IsWithin first last day
    → cached key route day rows ≡ some t
    → (x : DailyStatRow) × Memᴰ x
        (map daily_row (order_by newer (select (is_between first last) rows)))
      × IsLineOf key route day t x
unfolding daily_row is_between
in_report first last key route day t rows w e = elim (Option-cases (find_row key route day rows)) [
  | inl n ↦ absurd (ground arith)
  | inr (row, n) ↦
      let (there, same_k, same_r, same_p) = found_row key route day row rows n in
      (
        daily_row row,
        Memᴰ-mapped daily_row row _ (
            (Memᴰ-order_by newer row (select (is_between first last) rows)).1
              (Memᴰ-selected (is_between first last) row rows there (ground (arith, same_p)))),
        record { local_key = same_k; route_path = same_r; date = same_p; totals = ground arith },
      )
]

-- The daily statistics are an audit of the log. In any schedule from a backend whose cached rows are
-- the sums of its audit log and have different keys, and which leads to an audit log whose sums,
-- for every key, route and day, have been in int64 since its first row, the report for a range of days has a line for
-- a local key, a route and a day, with the four counters of the line, exactly if the day is in the
-- range and the audit log has rows of that key, route and day, which add up to these counters.
pub daily_report_audits :
    (es : List Event) (b : UsageBackend) (first last key route day : Text) (t : Totals)
    → IsSound b
    → IsUnique b.db.daily
    → ((k r p : Text) → StaysInteger format_date k r p (run es b).db.logs)
    → (report : List DailyStatRow) × (get_daily_stats false (run es b).db first last ≡ ok report)
      × (((x : DailyStatRow) × Memᴰ x report × IsLineOf key route day t x) ↔ (
          IsWithin first last day
          × (summary format_date key route day (run es b).db.logs ≡ some t)))
unfolding get_daily_stats
daily_report_audits es b first last key route day t s u _ =
    let rows = (run es b).db.daily in
    let same = (schedule-IsSound es b s).exact.balanced.daily key route day in
    (
      map daily_row (order_by newer (select (is_between first last) rows)),
      refl,
      (
        λ (x, m, l).
            let (w, e) = reported first last key route day t rows x (run-IsUnique es b u) m l in
            (w, sym same ∙ e),
        λ (w, e). in_report first last key route day t rows w (same ∙ e),
      ),
    )
