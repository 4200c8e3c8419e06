-- ===== src/Gateway/Ledger.antt =====
-- The ledger of the running gateway: its backend only takes the steps of Usage/Worker.
use mathlib.Core.Path.{subst}
use ai_local.Prelude.{
  List, Option, Text, [], ap, arith, none, refl, some, sym, ℕ, ◌++◌, ◌∙◌, ◌∷◌, ◌≡◌,
}
use ai_local.Apml.{ApmlConfig}
use ai_local.Json.{JsonGet}
use ai_local.Keystore.{KeyRecord}
use ai_local.Usage.Tables.{Database, Time}
use ai_local.Usage.Admission.{IsExact}
use ai_local.Usage.Worker.{
  UsageBackend, Event, emit, stop, work, run, step, new_usage_backend, start,
}
use ai_local.Usage.Shutdown.{IsSound, schedule-IsSound}
use ai_local.Proxy.Rewrite.{Url, JsonSet}
use ai_local.Proxy.Respond.{Outcome, Response, billed, passed, panicked, settle, modify_response}
use ai_local.Proxy.Serve.{Flight, Served, forwarded, not_found, integrity_violation, refused}
use ai_local.Gateway.{
  Gateway, GatewayEvent, key_added, key_deleted, arrived, answered, failed, worked, stopped, at,
  take_off, land, gateway_step, init_services,
}
use ai_local.Gateway.Reach.{Reach, next, opened}

-- The step of the backend that an outcome is.
abbrev pub emitted : Outcome → List Event
emitted (billed rec) = emit rec ∷ []
emitted _ = []

run-append : (xs ys : List Event) (b : UsageBackend) → run (xs ++ ys) b ≡ run ys (run xs b)
unfolding run
run-append [] ys b = refl
run-append (x ∷ xs) ys b = run-append xs ys (step x b)

module _ (sha256 : Text → List ℕ) (get : JsonGet) (set : JsonSet) (set_url : Url → Url → Url)
    (cfg : ApmlConfig) where
  abbrev landed : Option Flight → Time → Response → List Event
  landed none now res = []
  landed (some f) now res =
      emitted (modify_response get f.provider f.session f.path now f.streaming res)

  -- The events of the backend in an event of the gateway.
  unfoldable pub backend_events : GatewayEvent → Gateway → List Event
  backend_events (answered n now res) g = landed (at n g.flights) now res
  backend_events (worked pick) g = work pick ∷ []
  backend_events stopped g = stop ∷ []
  backend_events _ g = []

  settle-run : (o : Outcome) (b : UsageBackend) → settle get o b ≡ run (emitted o) b
  unfolding settle run step
  settle-run (billed rec) b = refl
  settle-run panicked b = refl
  settle-run passed b = refl

  land-run :
      (o : Option Flight) (n : ℕ) (now : Time) (res : Response) (g : Gateway)
      → (land sha256 get set set_url cfg o n now res g).backend ≡ run (landed o now res) g.backend
  unfolding land run
  land-run none n now res g = refl
  land-run (some f) n now res g =
      settle-run (modify_response get f.provider f.session f.path now f.streaming res) g.backend

  take_off-backend : (s : Served) (g : Gateway) → (take_off s g).backend ≡ g.backend
  unfolding take_off
  take_off-backend (forwarded f) g = refl
  take_off-backend not_found g = refl
  take_off-backend integrity_violation g = refl
  take_off-backend (refused r) g = refl

  gateway_step-run :
      (e : GatewayEvent) (g : Gateway)
      → (gateway_step sha256 get set set_url cfg e g).backend ≡ run (backend_events e g) g.backend
  unfolding gateway_step backend_events run step
  gateway_step-run (key_added id entropy req) g = refl
  gateway_step-run (key_deleted uid) g = refl
  gateway_step-run (arrived daily_fails monthly_fails now path target a) g = take_off-backend _ g
  gateway_step-run (answered n now res) g = land-run (at n g.flights) n now res g
  gateway_step-run (failed n) g = refl
  gateway_step-run (worked pick) g = refl
  gateway_step-run stopped g = refl

  module _ (before : Database) where
    abbrev fresh_backend : UsageBackend
    fresh_backend = new_usage_backend before

    Reach-run :
        {seen : List KeyRecord} {g : Gateway}
        → Reach sha256 get set set_url cfg before seen g
        → (es : List Event) × (g.backend ≡ run es fresh_backend)
    unfolding init_services run step
    Reach-run opened = (start ∷ [], refl)
    Reach-run (next {g} e fresh r) =
        let (es, same) = Reach-run r in
        (
          es ++ backend_events e g,
          gateway_step-run e g
              ∙ ap (run (backend_events e g)) same
              ∙ sym (run-append es (backend_events e g) fresh_backend),
        )

    fresh-IsSound : IsExact before → IsSound fresh_backend
    unfolding new_usage_backend
    fresh-IsSound x = record { bounded = omega arith; exact = x }

    -- In any course of events the backend is what some schedule of its own events makes of the
    -- fresh one, and the cached rows stay the exact sums of the log.
    pub Reach-IsSound :
        {seen : List KeyRecord} {g : Gateway}
        → IsExact before
        → Reach sha256 get set set_url cfg before seen g
        → IsSound g.backend
    unfolding new_usage_backend
    Reach-IsSound x r =
        let (es, same) = Reach-run r in
        subst IsSound (sym same) (schedule-IsSound es fresh_backend (fresh-IsSound x))
