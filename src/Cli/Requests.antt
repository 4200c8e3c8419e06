-- ===== src/Cli/Requests.antt =====
-- The requests that the `stats` command sends.
use ai_local.Prelude.{
  Bool, Bool-cases, List, Result-cases, Text, [], ap, arith, false, inl, inr, leb, length,
  length-take, ltb, map, negsuc, not, ok, ok-injective, order_by, pos, refl, some, suc, take,
  text_eq, true, zero, ℕ, ℤ, ◌%◌, ◌&&◌, ◌+◌, ◌/◌, ◌∙◌, ◌∷◌, ◌≡◌, ◌≤◌,
}
use ai_local.Usage.Tables.{Time, Database, LogRow, format_date, format_month}
use ai_local.Usage.Stats.{VerboseStatRow, get_verbose_logs, verbose_row}
use ai_local.Cli.{
  clamp_count, is_date, has_shape, wrap32, StatsCliOptions, check_stats_options, date_or,
  is_bad_date, parse_stats_options, stats_request,
}
use ai_local.Admin.{get_stats, GetStatsResponse, empty_response, positive_or, respond, stats_of}

digit-range : (d : ℕ) → (leb b'0' (b'0' + d % 10) && leb (b'0' + d % 10) b'9') ≡ true
digit-range d = ground arith

-- A formatted date has the shape of a date.
format_date-shape : (t : Time) → is_date (format_date t) ≡ true
unfolding is_date has_shape format_date format_month
format_date-shape t = ground (
  arith,
  digit-range (t.year / 1000),
  digit-range (t.year / 100),
  digit-range (t.year / 10),
  digit-range t.year,
  digit-range (t.month / 10),
  digit-range t.month,
  digit-range (t.day / 10),
  digit-range t.day,
)

clamp_count-range : (n : ℤ) → (k : ℕ) × (clamp_count n ≡ pos k) × (1 ≤ k) × (k ≤ 1000)
unfolding clamp_count
clamp_count-range (pos n) = elim (Bool-cases (ltb n 1)) [
  | inl a ↦ (1, ground arith, ground arith, ground arith)
  | inr a ↦ elim (Bool-cases (ltb 1000 n)) [
    | inl b ↦ (1000, ground arith, ground arith, ground arith)
    | inr b ↦ (n, ground arith, ground arith, ground arith)
  ]
]
clamp_count-range (negsuc n) = (1, ground arith, ground arith, ground arith)

wrap32_small : (k : ℕ) → k ≤ 1000 → wrap32 (pos k) ≡ pos k
unfolding wrap32
wrap32_small k h = ground arith

-- What the options are once they are accepted.
accepted_options :
    (given o : StatsCliOptions)
    → check_stats_options given ≡ ok o
    → o ≡ record given { count = clamp_count given.count }
unfolding check_stats_options
accepted_options given o e = elim (Bool-cases (given.monthly && given.verbose)) [
  | inl a ↦ cc
  | inr a ↦ elim (Bool-cases (not given.monthly && not given.verbose)) [
    | inr b ↦ ground arith
    | inl b ↦ elim (Bool-cases (is_bad_date given.start_date)) [
      | inl c ↦ ground arith
      | inr c ↦ elim (Bool-cases (is_bad_date given.end_date)) [
        | inl d ↦ ground arith
        | inr d ↦ ground arith
      ]
    ]
  ]
]

accepted_dates :
    (given o : StatsCliOptions)
    → check_stats_options given ≡ ok o
    → given.monthly ≡ false
    → given.verbose ≡ false
    → (is_bad_date given.start_date ≡ false) × (is_bad_date given.end_date ≡ false)
unfolding check_stats_options
accepted_dates given o e m v = elim (Bool-cases (is_bad_date given.start_date)) [
  | inl c ↦ ground arith
  | inr c ↦ elim (Bool-cases (is_bad_date given.end_date)) [ inl d ↦ ground arith | inr d ↦ (c, d) ]
]

date_or-shape :
    (now : Time) (date : Text)
    → is_bad_date date ≡ false
    → is_date (date_or (format_date now) date) ≡ true
date_or-shape now date e = elim (Bool-cases (text_eq date [])) [
  | inl b ↦ rw b (format_date-shape now)
  | inr b ↦ rw b (ground arith)
]

-- Both dates of a request for daily statistics have the form YYYY-MM-DD, whatever dates were
-- given with the command, if it was accepted.
pub stats_request_dates :
    (now : Time) (given o : StatsCliOptions)
    → parse_stats_options (some given) ≡ ok o
    → o.monthly ≡ false
    → o.verbose ≡ false
    → (is_date (stats_request now o).start_date ≡ true)
      × (is_date (stats_request now o).end_date ≡ true)
unfolding parse_stats_options stats_request
stats_request_dates now given o e m v =
    let same = accepted_options given o e in
    let (p, q) = accepted_dates given o e (rw same at m) (rw same at v) in
    rw same (
      rw (rw same at v) (
        rw (rw same at m)
          (date_or-shape now given.start_date p, date_or-shape now given.end_date q)))

module _ {A B : Type 0} (f : A → B) where
  length-map : (xs : List A) → length (map f xs) ≡ length xs
  length-map [] = refl
  length-map (x ∷ xs) = ap suc (length-map xs)

verbose_rows_bound :
    (timestamp : Time → Text) (fails : Bool) (db : Database) (k : ℕ) (rows : List VerboseStatRow)
    → get_verbose_logs timestamp fails db k ≡ ok rows
    → length rows ≤ k
unfolding get_verbose_logs
verbose_rows_bound timestamp true db k rows e = cc
verbose_rows_bound timestamp false db k rows e =
    let logs = order_by (λ (a b : LogRow). leb b.id a.id) db.logs in
    let same : map (verbose_row timestamp) (take k logs) ≡ rows = ok-injective e in
    rw (← same)
      (omega (arith, length-map (verbose_row timestamp) (take k logs), length-take k logs))

-- An accepted verbose command asks for between 1 and 1000 rows, whatever count was given, and the
-- answer of the gateway to its request has no more rows than it asks for.
pub stats_request_rows :
    (timestamp : Time → Text) (fails : Bool) (here there : Time) (db : Database)
    (given o : StatsCliOptions) (resp : GetStatsResponse)
    → parse_stats_options (some given) ≡ ok o
    → o.verbose ≡ true
    → get_stats timestamp fails there (some db) (some (stats_request here o)) ≡ ok resp
    → (k : ℕ) × ((stats_request here o).max_count ≡ pos k)
      × (1 ≤ k)
      × (k ≤ 1000)
      × (length resp.verbose_rows ≤ k)
unfolding parse_stats_options stats_request get_stats stats_of
stats_request_rows timestamp fails here there db given o resp e v a =
    let (k, clamped, low, high) = clamp_count-range given.count in
    let counted : o.count ≡ pos k =
      ap (λ (x : StatsCliOptions). x.count) (accepted_options given o e) ∙ clamped in
    let asked : wrap32 o.count ≡ pos k = ap wrap32 counted ∙ wrap32_small k high in
    (k, rw v asked, low, high, answer k low (rw (v, asked) at a))
  where
    answer :
        (k : ℕ)
        → 1 ≤ k
        → respond
            (λ (rows : List VerboseStatRow). record empty_response { verbose_rows = rows })
            (get_verbose_logs timestamp fails db (positive_or 100 (pos k)))
          ≡ ok resp
        → length resp.verbose_rows ≤ k
    answer zero h b = omega arith
    answer (suc k) h b = elim (Result-cases (get_verbose_logs timestamp fails db (suc k))) [
      | inl (rows, c) ↦
          let same : record empty_response { verbose_rows = rows } ≡ resp = ground arith in
          rw (← same) (verbose_rows_bound timestamp fails db (suc k) rows c)
      | inr (x, c) ↦ ground arith
    ]
