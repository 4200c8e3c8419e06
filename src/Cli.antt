-- ===== src/Cli.antt =====
-- cmd/cli/stats.go: the options of the `stats` command and the request that it sends.
-- The flags are parsed by package `flag`, which gives the options or refuses the arguments.
use ai_local.Prelude.{
  Bool, Option, Result, Text, [], codes, eqb_ℤ, err, false, if◌then◌else◌, leb, ltb, ltb_ℤ, negsuc,
  none, not, ok, pos, some, sub_ℕ, text_eq, true, ℕ, ℤ, ◌%◌, ◌&&◌, ◌-◌, ◌==◌, ◌^◌, ◌∷◌,
}
use ai_local.Usage.Tables.{Time, format_date}
use ai_local.Admin.{GetStatsRequest, daily_mode, monthly_mode, verbose_mode}
pub mod Requests
pub mod Output
pub mod Command
pub mod Dispatch
pub mod Effects
pub mod Added

pub record StatsCliOptions : Type 0 where
  pub start_date : Text
  pub end_date : Text
  pub monthly : Bool
  pub year : ℤ  -- int
  pub verbose : Bool
  pub count : ℤ  -- int

pub data CliError : Type 0 where
  bad_flags both_modes : CliError
  bad_start_date bad_end_date : Text → CliError

-- Whether a text has a shape, in which `d` stands for a digit.
unfoldable pub has_shape : Text → Text → Bool
has_shape [] [] = true
has_shape [] (c ∷ s) = false
has_shape (p ∷ shape) [] = false
has_shape (p ∷ shape) (c ∷ s) =
    (if p == b'd' then leb b'0' c && leb c b'9' else p == c) && has_shape shape s

-- datePattern, ^\d{4}-\d{2}-\d{2}$
unfoldable pub is_date : Text → Bool
is_date s = has_shape (codes "dddd-dd-dd") s

unfoldable pub clamp_count : ℤ → ℤ
clamp_count count =
    let at_least = if ltb_ℤ count (pos 1) then pos 1 else count in
    if ltb_ℤ (pos 1000) at_least then pos 1000 else at_least

-- A date that is given and is none.
abbrev pub is_bad_date : Text → Bool
is_bad_date date = not (text_eq date []) && not (is_date date)

unfoldable pub check_stats_options : StatsCliOptions → Result CliError StatsCliOptions
check_stats_options o =
    let clamped = record o { count = clamp_count o.count } in
    if o.monthly && o.verbose
    then err both_modes
    else if not o.monthly && not o.verbose
    then if is_bad_date o.start_date
      then err (bad_start_date o.start_date)
      else if is_bad_date o.end_date
      then err (bad_end_date o.end_date)
      else ok clamped
    else ok clamped

-- `none` says that package `flag` refuses the arguments.
unfoldable pub parse_stats_options : Option StatsCliOptions → Result CliError StatsCliOptions
parse_stats_options none = err bad_flags
parse_stats_options (some o) = check_stats_options o

-- int32(n)
unfoldable pub wrap32 : ℤ → ℤ
wrap32 n = let low = low_bits n in if ltb low (2 ^ 31) then pos low else sub_ℕ low (2 ^ 32)
  where
    low_bits : ℤ → ℕ
    low_bits (pos m) = m % 2 ^ 32
    low_bits (negsuc m) = 2 ^ 32 - 1 - m % 2 ^ 32

abbrev pub date_or : Text → Text → Text
date_or today date = if text_eq date [] then today else date

-- The request of handleStatsCommand.
unfoldable pub stats_request : Time → StatsCliOptions → GetStatsRequest
stats_request now o =
    if o.verbose
    then record {
      mode = verbose_mode;
      start_date = [];
      end_date = [];
      year = pos 0;
      max_count = wrap32 o.count;
    }
    else if o.monthly
    then record {
      mode = monthly_mode;
      start_date = [];
      end_date = [];
      year = wrap32 (if eqb_ℤ o.year (pos 0) then pos now.year else o.year);
      max_count = pos 0;
    }
    else record {
      mode = daily_mode;
      start_date = date_or (format_date now) o.start_date;
      end_date = date_or (format_date now) o.end_date;
      year = pos 0;
      max_count = pos 0;
    }
