-- ===== src/Gateway.antt =====
-- The running gateway: the parts that cmd/server/main.go puts together, and one step for each thing
-- that can happen to them. A request is two steps, since it waits for the provider in between; the
-- admission of a request, an administrative call and a round of the worker are one step each.
use ai_local.Prelude.{Bool, List, Option, Text, [], none, some, suc, zero, ℕ, ◌++◌, ◌∷◌}
use ai_local.Apml.{ApmlConfig}
use ai_local.Json.{JsonGet}
use ai_local.Keystore.{Store, new_store}
use ai_local.Usage.Tables.{Database, Time}
use ai_local.Usage.Worker.{UsageBackend, Pick, new_usage_backend, start_worker}
use ai_local.Usage.Worker as Worker
use ai_local.Admin.{AddKeyRequest, serve_add_key, serve_delete_key}
use ai_local.Proxy.Rewrite.{Url, JsonSet}
use ai_local.Proxy.Respond.{Response, modify_response, settle}
use ai_local.Proxy.Serve.{Arrival, Flight, Served, forwarded, serve}
pub mod Accounts
pub mod Sound
pub mod Reach
pub mod Ledger
pub mod Beside
pub mod Blind
pub mod Admitted

pub record Gateway : Type 0 where
  pub store : Store
  pub backend : UsageBackend
  pub flights : List Flight

-- `answered` and `failed` name a flight by its place.
pub data GatewayEvent : Type 0 where
  key_added : Option Text → Option (List ℕ) → AddKeyRequest → GatewayEvent
  key_deleted : Text → GatewayEvent
  arrived : Bool → Bool → Time → Text → Url → Arrival → GatewayEvent
  answered : ℕ → Time → Response → GatewayEvent
  failed : ℕ → GatewayEvent
  worked : Pick → GatewayEvent
  stopped : GatewayEvent

-- The services that initServices assembles on a database.
unfoldable pub init_services : Database → Gateway
init_services db = record {
  store = new_store;
  backend = start_worker (new_usage_backend db);
  flights = [];
}

module _ {A : Type 0} where
  unfoldable pub at : ℕ → List A → Option A
  at n [] = none
  at zero (x ∷ xs) = some x
  at (suc n) (x ∷ xs) = at n xs

  unfoldable pub without : ℕ → List A → List A
  without n [] = []
  without zero (x ∷ xs) = xs
  without (suc n) (x ∷ xs) = x ∷ without n xs

-- A request that was sent upstream waits among the flights.
unfoldable pub take_off : Served → Gateway → Gateway
take_off (forwarded f) g = record g { flights = g.flights ++ f ∷ [] }
take_off _ g = g

module _ (sha256 : Text → List ℕ) (get : JsonGet) (set : JsonSet) (set_url : Url → Url → Url)
    (cfg : ApmlConfig) where
  -- ModifyResponse on the response to a flight, which is then over.
  unfoldable pub land : Option Flight → ℕ → Time → Response → Gateway → Gateway
  land none n now res g = g
  land (some f) n now res g = record g {
    flights = without n g.flights;
    backend =
        settle get (modify_response get f.provider f.session f.path now f.streaming res) g.backend;
  }

  unfoldable pub gateway_step : GatewayEvent → Gateway → Gateway
  gateway_step (key_added id entropy req) g = record g {
    store = (serve_add_key sha256 cfg id entropy req g.store).0;
  }
  gateway_step (key_deleted uid) g = record g { store = (serve_delete_key uid g.store).0 }
  gateway_step (arrived daily_fails monthly_fails now path target a) g =
      take_off
        (serve get set set_url sha256 daily_fails monthly_fails now cfg g.store g.backend.db path
          target a)
        g
  gateway_step (answered n now res) g = land (at n g.flights) n now res g
  gateway_step (failed n) g = record g { flights = without n g.flights }
  gateway_step (worked pick) g = record g { backend = Worker.step (Worker.work pick) g.backend }
  gateway_step stopped g = record g { backend = Worker.step Worker.stop g.backend }
