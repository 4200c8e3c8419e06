-- ===== src/Tests/Commands.antt =====
-- The `stats` command with a count that is too large, and with one date.
use ai_local.Prelude.{[], codes, false, ok, order_by, pos, refl, some, text_eq, true, ◌≡◌}
use ai_local.Usage.Tables.{Time, empty_database, format_date}
use ai_local.Usage.Stats.{get_verbose_logs}
use ai_local.Admin.{empty_response, get_stats, stats_of}
use ai_local.Cli.{
  StatsCliOptions, parse_stats_options, check_stats_options, clamp_count, is_date, has_shape,
  stats_request, wrap32,
}

abbrev noon : Time
noon = record { year = 2026; month = 7; day = 1; nanos = 0 }

abbrev too_many : StatsCliOptions
too_many = record {
  start_date = [];
  end_date = [];
  monthly = false;
  year = pos 0;
  verbose = true;
  count = pos 5000;
}

abbrev thousand : StatsCliOptions
thousand = record too_many { count = pos 1000 }

clamped : parse_stats_options (some too_many) ≡ ok thousand
unfolding parse_stats_options check_stats_options clamp_count
clamped = refl

no_logs :
    get_stats format_date false noon (some empty_database) (some (stats_request noon thousand))
    ≡ ok empty_response
unfolding get_stats stats_of stats_request wrap32 get_verbose_logs order_by
no_logs = refl

abbrev one_date : StatsCliOptions
one_date = record too_many { verbose = false; start_date = codes "2026-06-30"; count = pos 100 }

dated : parse_stats_options (some one_date) ≡ ok one_date
unfolding parse_stats_options check_stats_options clamp_count is_date has_shape text_eq
dated = refl
