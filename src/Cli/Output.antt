-- ===== src/Cli/Output.antt =====
-- What the command line prints. The columns are set by package tabwriter, the parameter `align`.
use ai_local.Usage.Stats.{show_int, DailyStatRow, MonthlyStatRow, VerboseStatRow}
use ai_local.Prelude.{List, Result, Text, [], codes, err, map, ok, pos, ℕ, ◌++◌, ◌∷◌}
use ai_local.Usage.Stats.{DailyStatRow, MonthlyStatRow, VerboseStatRow}
use ai_local.Admin.{
  RouteInfo, QuotaInfo, KeyInfo, GetStatsResponse, StatsMode, daily_mode, monthly_mode,
  verbose_mode, other_mode,
}

-- What a run leaves: the texts on the two streams and the exit status.
pub record Output : Type 0 where
  pub stdout : Text
  pub stderr : Text
  pub status : ℕ

abbrev pub prints : Text → Output
prints text = record { stdout = text; stderr = []; status = 0 }

-- os.Exit(1) behind a text on the error stream.
abbrev pub fails_with : Text → Output
fails_with text = record { stdout = []; stderr = text; status = 1 }

abbrev pub line : Text → Text
line text = text ++ b'\n' ∷ []

-- %s\t…\n
unfoldable pub row_line : List Text → Text
row_line [] = b'\n' ∷ []
row_line (cell ∷ []) = cell ++ b'\n' ∷ []
row_line (cell ∷ other ∷ cells) = let rest = row_line (other ∷ cells) in cell ++ b'\t' ∷ rest

unfoldable pub table_text : List (List Text) → Text
table_text [] = []
table_text (row ∷ rows) = row_line row ++ table_text rows

unfoldable pub route_cells : RouteInfo → List Text
route_cells r = r.uri ∷ r.quota ∷ r.provider ∷ []

unfoldable pub quota_cells : QuotaInfo → List Text
quota_cells q = q.name ∷ show_int q.daily ∷ show_int q.monthly ∷ q.mode ∷ q.status ∷ []

unfoldable pub key_cells : KeyInfo → List Text
key_cells k = k.uuid ∷ k.alias ∷ k.route ∷ k.real_key ∷ k.internal_key ∷ []

unfoldable pub daily_cells : DailyStatRow → List Text
daily_cells r =
    r.date
    ∷ r.route_path
    ∷ r.local_key
    ∷ show_int r.total_requests
    ∷ show_int r.prompt_tokens
    ∷ show_int r.completion_tokens
    ∷ show_int r.total_tokens
    ∷ r.last_activity
    ∷ []

unfoldable pub monthly_cells : MonthlyStatRow → List Text
monthly_cells r =
    r.month
    ∷ r.route_path
    ∷ r.local_key
    ∷ show_int r.total_requests
    ∷ show_int r.prompt_tokens
    ∷ show_int r.completion_tokens
    ∷ show_int r.total_tokens
    ∷ []

unfoldable pub verbose_cells : VerboseStatRow → List Text
verbose_cells r =
    show_int (pos r.id)
    ∷ r.route_path
    ∷ r.local_key
    ∷ r.client_ip
    ∷ show_int r.prompt_tokens
    ∷ show_int r.completion_tokens
    ∷ show_int r.total_tokens
    ∷ r.timestamp
    ∷ []

module _ (align : Text → Text) where
  -- A table under its head, or a notice where there are no rows.
  abbrev pub table_or : {A : Type 0} → Text → List Text → (A → List Text) → List A → Text
  table_or notice head cells [] = line notice
  table_or notice head cells (r ∷ rows) = align (table_text (head ∷ map cells (r ∷ rows)))

  unfoldable pub print_daily_stats_table : List DailyStatRow → Text
  print_daily_stats_table rows =
      table_or (codes "No daily stats found for the given date range.")
        (codes "DATE"
          ∷ codes "ROUTE PATH"
          ∷ codes "LOCAL KEY"
          ∷ codes "REQUESTS"
          ∷ codes "PROMPT TOKENS"
          ∷ codes "COMPLETION TOKENS"
          ∷ codes "TOTAL TOKENS"
          ∷ codes "LAST ACTIVITY"
          ∷ [])
        daily_cells rows

  unfoldable pub print_monthly_stats_table : List MonthlyStatRow → Text
  print_monthly_stats_table rows =
      table_or (codes "No monthly stats found for the specified year.")
        (codes "MONTH"
          ∷ codes "ROUTE PATH"
          ∷ codes "LOCAL KEY"
          ∷ codes "REQUESTS"
          ∷ codes "PROMPT TOKENS"
          ∷ codes "COMPLETION TOKENS"
          ∷ codes "TOTAL TOKENS"
          ∷ [])
        monthly_cells rows

  unfoldable pub print_verbose_stats_table : List VerboseStatRow → Text
  print_verbose_stats_table rows =
      table_or (codes "No verbose stats found.")
        (codes "ID"
          ∷ codes "ROUTE PATH"
          ∷ codes "LOCAL KEY"
          ∷ codes "CLIENT IP"
          ∷ codes "PROMPT TKNS"
          ∷ codes "COMPLETION TKNS"
          ∷ codes "TOTAL TKNS"
          ∷ codes "TIMESTAMP"
          ∷ [])
        verbose_cells rows

  -- The table for the mode of the request.
  unfoldable pub print_stats : StatsMode → GetStatsResponse → Result Text Text
  print_stats daily_mode resp = ok (print_daily_stats_table resp.daily_rows)
  print_stats monthly_mode resp = ok (print_monthly_stats_table resp.monthly_rows)
  print_stats verbose_mode resp = ok (print_verbose_stats_table resp.verbose_rows)
  print_stats (other_mode n) resp = err (codes "unsupported response mode: " ++ show_int n)
