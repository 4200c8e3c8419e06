-- ===== src/Proxy/Answer.antt =====
-- internal/proxy/proxy.go: the answers that the proxy gives itself, with the lines that it writes to
-- the access log; its construction and start; and the Close of a streamed body. The router, the
-- clock's formatting and the texts of errors are parameters.
use ai_local.Prelude.{
  Bool, List, Map, Option, Result, Text, [], codes, false, if◌then◌else◌, lookup, none, pos, refl,
  some, suc, true, zero, ℕ, ℤ, ◌++◌, ◌∷◌, ◌≡◌,
}
use ai_local.Apml.{ApmlConfig, RouteConfig}
use ai_local.Logx.{Log, accessf}
use ai_local.Proxy.Auth.{
  Refusal, Session, invalid_key, malformed_bearer, malformed_custom_header, or_zero, quota_exceeded,
  status_of, zero_provider,
}
use ai_local.Proxy.Rewrite.{Url, setup_routes}
use ai_local.Usage.Quota.{DenyReason, daily_exceeded, monthly_exceeded, no_reason}
use ai_local.Usage.Stats.{decimal, show_int}

-- The JSON object of an answer: its texts `error` and `detail`, and `route` where it is there.
pub record Answer : Type 0 where
  pub status : ℕ
  pub error : Text
  pub detail : Text
  pub route : Option Text

-- "… quota exceeded: used %d + estimated %d > limit %d"
unfoldable pub exceeded_text : Text → ℤ → ℤ → ℤ → Text
exceeded_text period current estimated limit =
    period
    ++ codes " quota exceeded: used "
    ++ show_int current
    ++ codes " + estimated "
    ++ show_int estimated
    ++ codes " > limit "
    ++ show_int limit

unfoldable pub deny_text : DenyReason → Text
deny_text no_reason = []
deny_text (daily_exceeded current estimated limit) =
    exceeded_text (codes "daily") current estimated limit
deny_text (monthly_exceeded current estimated limit) =
    exceeded_text (codes "monthly") current estimated limit

-- The body of an aborted request.
unfoldable pub error_text : Refusal → Text
error_text (quota_exceeded _) = codes "quota exceeded"
error_text _ = codes "Unauthorized"

unfoldable pub detail_text : Refusal → Text
detail_text (malformed_custom_header name) =
    codes "Missing or malformed key in custom header '" ++ name ++ codes "'."
detail_text malformed_bearer =
    codes "Missing or malformed Authorization header. Expected 'Bearer <key>'."
detail_text invalid_key = codes "Invalid local API key or mismatched route gateway definition."
detail_text (quota_exceeded reason) = deny_text reason

unfoldable pub refusal_answer : Refusal → Answer
refusal_answer e = record {
  status = status_of e;
  error = error_text e;
  detail = detail_text e;
  route = none;
}

-- "%s - %s [%s] \"POST %s HTTP/1.1\" %d - \"-\" \"…\""
unfoldable pub access_line : Text → Text → Text → Text → ℕ → Text → Text
access_line client_ip user stamp path status note =
    client_ip
    ++ codes " - "
    ++ user
    ++ codes " ["
    ++ stamp
    ++ codes "] \"POST "
    ++ path
    ++ codes " HTTP/1.1\" "
    ++ decimal 20 status
    ++ codes " - \"-\" \""
    ++ note
    ++ codes "\""

unfoldable pub refusal_note : Refusal → Text
refusal_note (malformed_custom_header name) = codes "Missing custom key header"
refusal_note malformed_bearer = codes "Missing Bearer token"
refusal_note invalid_key = codes "Invalid or mismatched credential token"
refusal_note (quota_exceeded reason) = codes "Quota exhausted: " ++ deny_text reason

-- Only a request that is over its quota has the alias of its key in the log.
unfoldable pub shown_user : Text → Refusal → Text
shown_user alias (quota_exceeded _) = alias
shown_user alias _ = codes "-"

-- What the interceptor does where it refuses; `alias` is that of the key it found.
unfoldable pub refuse : Text → Text → Text → Text → Refusal → Log → Log × Answer
refuse client_ip alias stamp url_path e l = (
  accessf (access_line client_ip (shown_user alias e) stamp url_path (status_of e) (refusal_note e))
      l,
  refusal_answer e,
)

-- ErrorHandler, for a request that the provider did not answer.
unfoldable pub error_handler : Session → Text → Text → Text → Log → Log × Answer
error_handler s stamp route_path error l = (
  accessf
      (access_line s.client_ip s.alias stamp route_path 502
        (codes "Bad Gateway Proxy Connection Fault: " ++ error))
      l,
  record {
    status = 502;
    error = codes "upstream request failed";
    detail = error;
    route = some route_path;
  },
)

-- NewProxyServer: the registered routes stand for the engine.
unfoldable pub new_proxy_server : (Text → Option Url) → ApmlConfig → Result Text (Map Url)
new_proxy_server parse_url cfg = setup_routes parse_url cfg

unfoldable pub route_lines : ApmlConfig → Map RouteConfig → List Text
route_lines cfg [] = []
route_lines cfg ((path, route) ∷ routes) =
    (codes "  "
      ++ path
      ++ codes " -> https://"
      ++ (or_zero zero_provider (lookup route.provider cfg.providers)).host)
    ∷ route_lines cfg routes

-- Start: what it prints before it listens, and the error of RunTLS, which it returns.
unfoldable pub start_proxy : Text → ApmlConfig → Option Text → List Text × Option Text
start_proxy addr cfg run_tls =
    ((codes "ai.local listening on https://0.0.0.0" ++ addr) ∷ route_lines cfg cfg.routes, run_tls)

-- autoCloseWriter: `done` is that of its sync.Once, `closed_pipe` counts the calls of onClose, which
-- closes the writing end of the pipe. The reader below is a NopCloser, whose Close does nothing, so
-- that the provider's body stays open.
pub record AutoClose : Type 0 where
  pub done : Bool
  pub closed_pipe : ℕ
  pub closed_body : ℕ

unfoldable pub close_writer : AutoClose → AutoClose
close_writer a = if a.done then a else record a { done = true; closed_pipe = suc a.closed_pipe }

abbrev close_times : ℕ → AutoClose → AutoClose
close_times zero a = a
close_times (suc n) a = close_times n (close_writer a)

closed_stays : (n : ℕ) (a : AutoClose) → a.done ≡ true → close_times n a ≡ a
unfolding close_writer
closed_stays zero a h = refl
closed_stays (suc n) a h = simp (h, closed_stays n a h)

-- However often the body is closed, the pipe is closed once and the provider's body never.
close_writer_once :
    (n : ℕ) (a : AutoClose)
    → a.done ≡ false
    → close_times (suc n) a ≡ record a { done = true; closed_pipe = suc a.closed_pipe }
unfolding close_writer
close_writer_once n a h =
    rw h (closed_stays n (record a { done = true; closed_pipe = suc a.closed_pipe }) refl)

-- A refused request is told why: the answer shows which refusal it was.
at_limit :
    (refusal_answer (quota_exceeded (daily_exceeded (pos 90) (pos 20) (pos 100)))).detail
    ≡ codes "daily quota exceeded: used 90 + estimated 20 > limit 100"
unfolding refusal_answer detail_text deny_text exceeded_text show_int decimal
at_limit = refl
