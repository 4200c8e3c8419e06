-- ===== src/Admin.antt =====
-- grpc/handler.go: the administrative calls, over the configuration, the key store and the ledger,
-- and the debug switch of internal/logx/logger.go.
-- The rows of the answers to GetStats have the fields of the rows that the usage store gives, and
-- are those. The context of a call and the log are not modelled.
use ai_local.Prelude.{
  Bool, List, Map, Option, Result, Text, [], codes, eqb_ℤ, err, false, if◌then◌else◌, insert,
  lookup, map, negsuc, none, ok, pos, some, suc, text_eq, trim_space, true, zero, ℕ, ℤ, ◌&&◌, ◌∷◌,
}
use ai_local.Apml.{ApmlConfig, RouteConfig, QuotaDetail}
use ai_local.Keystore.{Store, KeyRecord, AddError, add_key, delete_key, list_keys, mask_key}
use ai_local.Usage.Tables.{Time, Database, format_date}
use ai_local.Usage.Stats.{
  DailyStatRow, MonthlyStatRow, VerboseStatRow, StatsError, get_daily_stats, get_monthly_stats,
  get_verbose_logs,
}
pub mod Managed
pub mod Renamed
pub mod Console

pub record RouteInfo : Type 0 where
  pub uri : Text
  pub quota : Text
  pub provider : Text

pub record QuotaInfo : Type 0 where
  pub name : Text
  pub daily : ℤ
  pub monthly : ℤ
  pub mode : Text
  pub status : Text

pub record KeyInfo : Type 0 where
  pub uuid : Text
  pub alias : Text
  pub route : Text
  pub real_key : Text
  pub internal_key : Text

pub record AddKeyRequest : Type 0 where
  pub route : Text
  pub real_key : Text
  pub alias : Text

-- DAILY, MONTHLY, VERBOSE, or a number that is none of them.
pub data StatsMode : Type 0 where
  daily_mode monthly_mode verbose_mode : StatsMode
  other_mode : ℤ → StatsMode

pub record GetStatsRequest : Type 0 where
  pub mode : StatsMode
  pub start_date : Text
  pub end_date : Text
  pub year : ℤ  -- int32
  pub max_count : ℤ  -- int32

pub record GetStatsResponse : Type 0 where
  pub daily_rows : List DailyStatRow
  pub monthly_rows : List MonthlyStatRow
  pub verbose_rows : List VerboseStatRow

pub data AdminError : Type 0 where
  route_missing : Text → AdminError
  token_empty : AdminError
  append_failed : AddError → AdminError
  usage_not_configured request_nil : AdminError
  stats_failed : StatsError → AdminError
  unsupported_mode : ℤ → AdminError

unfoldable pub route_info : Text × RouteConfig → RouteInfo
route_info (uri, route) = record {
  uri = uri;
  quota = if text_eq route.quota [] then codes "None" else route.quota;
  provider = route.provider;
}

unfoldable pub list_routes : ApmlConfig → List RouteInfo
list_routes cfg = map route_info cfg.routes

-- The loop that fills appliedQuotas, a set as a map to `true`.
unfoldable pub apply_quotas : Map RouteConfig → Map Bool → Map Bool
apply_quotas [] applied = applied
apply_quotas ((uri, route) ∷ routes) applied =
    apply_quotas routes
      (if text_eq route.quota [] then applied else insert route.quota true applied)

-- appliedQuotas[name]
abbrev pub is_applied : Option Bool → Bool
is_applied none = false
is_applied (some b) = b

unfoldable pub quota_info : Map Bool → Text × QuotaDetail → QuotaInfo
quota_info applied (name, q) = record {
  name = name;
  daily = q.daily;
  monthly = q.monthly;
  mode = if eqb_ℤ q.daily (pos 0) && eqb_ℤ q.monthly (pos 0) then codes "unlimited" else q.mode;
  status = if is_applied (lookup name applied) then codes "APPLIED" else codes "IDLE";
}

unfoldable pub list_quotas : ApmlConfig → List QuotaInfo
list_quotas cfg = map (quota_info (apply_quotas cfg.routes [])) cfg.quotas

unfoldable pub key_info : KeyRecord → KeyInfo
key_info r = record {
  uuid = r.uuid;
  alias = r.alias;
  route = r.route;
  real_key = mask_key r.real_key;
  internal_key = r.internal_key;
}

-- AdminHandler.ListKeys
unfoldable pub serve_list_keys : Store → List KeyInfo
serve_list_keys s = map key_info (list_keys s)

-- The answer to AddKey, from what the key store returned.
unfoldable pub add_answer : Store × Result AddError KeyRecord → Store × Result AdminError Text
add_answer (s, ok r) = (s, ok r.internal_key)
add_answer (s, err e) = (s, err (append_failed e))

-- AdminHandler.AddKey below the look at the route.
unfoldable pub add_to_route :
    (Text → List ℕ)
    → Option RouteConfig
    → Option Text
    → Option (List ℕ)
    → AddKeyRequest
    → Store
    → Store × Result AdminError Text
add_to_route sha256 none id entropy req s = (s, err (route_missing req.route))
add_to_route sha256 (some route) id entropy req s =
    if text_eq (trim_space req.real_key) []
    then (s, err token_empty)
    else add_answer (add_key sha256 id entropy req.route req.real_key req.alias s)

-- AdminHandler.AddKey
unfoldable pub serve_add_key :
    (Text → List ℕ)
    → ApmlConfig
    → Option Text
    → Option (List ℕ)
    → AddKeyRequest
    → Store
    → Store × Result AdminError Text
serve_add_key sha256 cfg id entropy req s =
    add_to_route sha256 (lookup req.route cfg.routes) id entropy req s

-- AdminHandler.DeleteKey
unfoldable pub serve_delete_key : Text → Store → Store × Bool
serve_delete_key uid s = delete_key uid s

-- `if n <= 0 { n = default }`
abbrev pub positive_or : ℕ → ℤ → ℕ
positive_or default (pos zero) = default
positive_or default (pos (suc n)) = suc n
positive_or default (negsuc n) = default

-- A date that is blank stands for today.
unfoldable pub date_or_today : Time → Text → Text
date_or_today now date =
    let given = trim_space date in if text_eq given [] then format_date now else given

abbrev pub empty_response : GetStatsResponse
empty_response = record { daily_rows = []; monthly_rows = []; verbose_rows = [] }

abbrev pub respond :
    {A : Type 0} → (A → GetStatsResponse) → Result StatsError A → Result AdminError GetStatsResponse
respond f (ok rows) = ok (f rows)
respond f (err e) = err (stats_failed e)

module _ (timestamp : Time → Text) (fails : Bool) (now : Time) where
  -- The `switch` on the mode.
  unfoldable pub stats_of :
      StatsMode → Database → GetStatsRequest → Result AdminError GetStatsResponse
  stats_of daily_mode db req =
      respond (λ (rows : List DailyStatRow). record empty_response { daily_rows = rows })
        (get_daily_stats fails db (date_or_today now req.start_date)
          (date_or_today now req.end_date))
  stats_of monthly_mode db req =
      respond (λ (rows : List MonthlyStatRow). record empty_response { monthly_rows = rows })
        (get_monthly_stats fails db (positive_or now.year req.year))
  stats_of verbose_mode db req =
      respond (λ (rows : List VerboseStatRow). record empty_response { verbose_rows = rows })
        (get_verbose_logs timestamp fails db (positive_or 100 req.max_count))
  stats_of (other_mode n) db req = err (unsupported_mode n)

  -- `none` is a nil pointer.
  unfoldable pub get_stats :
      Option Database → Option GetStatsRequest → Result AdminError GetStatsResponse
  get_stats none req = err usage_not_configured
  get_stats (some db) none = err request_nil
  get_stats (some db) (some req) = stats_of req.mode db req

-- EnableDebug and DisableDebug set the switch, DebugEnabled reads it.
unfoldable pub enable_debug : Bool → Bool
enable_debug debug = true

unfoldable pub disable_debug : Bool → Bool
disable_debug debug = false

-- ConfigureDebug, on the switch: the switch behind it and the answer.
unfoldable pub configure_debug : Option Bool → Bool → Bool × Result AdminError Bool
configure_debug none debug = (debug, err request_nil)
configure_debug (some enable) debug =
    let switch = if enable then enable_debug debug else disable_debug debug in (switch, ok switch)
