-- ===== src/Server/Main.antt =====
-- main of cmd/server/main.go: the start, the run and the end of the gateway's process.
-- A run is the list of what it does and how it ends. `os.Exit` ends it on the spot; a deferred call
-- is made only where main returns. What the packages of others give is the record Packages, what
-- befalls the process is the record Fates. What is printed and logged is left out.
use ai_local.Prelude.{
  Bool, List, Map, Option, Result, Text, [], codes, err, false, if◌then◌else◌, lookup, ok, text_eq,
  true, ◌&&◌, ◌++◌, ◌∷◌,
}
use ai_local.Apml.Yaml.{Yaml, ParseError, parse}
use ai_local.Proxy.Rewrite.{Url}
use ai_local.Proxy.Answer.{new_proxy_server}
use ai_local.Server.Control.{ControlError, new_server}
use ai_local.Tls.{
  CertError, Crypto, Files, UrlParts, WriteFate, cert_exists, generate_self_signed_cert,
}
use ai_local.Server.Backup.{backup_apml_configuration}
use ai_local.Usage.Tables.{Time}
use ai_local.Proxy.Auth.{or_zero}
use ai_local.Apml.{ApmlConfig}
use ai_local.Server.{build_db_name, build_plan_name}

pub record Flags : Type 0 where
  pub data_dir : Text
  pub config_file : Text
  pub grpc_addr : Text
  pub proxy_addr : Text
  pub gen_cert_only : Bool

-- `flag` finds what is given of a flag.
unfoldable pub parse_flags : (Text → Option Text) → Bool → Flags
parse_flags flag gen_cert = record {
  data_dir = or_zero (codes "/etc/ai.local") (flag (codes "d"));
  config_file = or_zero [] (flag (codes "f"));
  grpc_addr = or_zero (codes ":50051") (flag (codes "grpc-addr"));
  proxy_addr = or_zero (codes ":8443") (flag (codes "proxy-addr"));
  gen_cert_only = gen_cert;
}

-- What is done outside the process and its memory, files apart.
pub data Action : Type 0 where
  dir_made db_opened : Text → Action
  worker_started : Action
  control_plane_bound : Text → Action
  data_plane_bound : Text → Text → Text → Action
  grpc_stopped backend_stopped db_closed : Action

-- Why the process exits with status 1.
pub data Failure : Type 0 where
  no_data_directory no_log no_credentials no_database no_schema : Failure
  bad_config : ParseError → Failure
  not_generated : CertError → Failure
  no_control_plane : ControlError → Failure
  no_data_plane : Text → Failure
  control_plane_crashed data_plane_crashed : Failure

-- main returns, the process exits, or it goes on.
pub data Ending : Type 0 where
  returned going_on : Ending
  exits : Failure → Ending

pub record Run : Type 0 where
  pub actions : List Action
  pub ending : Ending
  pub files : Files

-- What happens once the services are started: a listener is bound or ends with an error, the
-- configuration is copied, a signal comes, the last administrative call is over.
pub data ServerEvent : Type 0 where
  grpc_bound grpc_fails proxy_bound proxy_fails signalled drained : ServerEvent
  backed_up : Text → WriteFate → WriteFate → ServerEvent

pub record Packages : Type 1 where
  pub Node : Type 0
  pub yaml : Yaml Node
  pub load : Text → Result Text (Option (Option (List (Text × Node))))
  pub join : Text → Text → Text
  pub parse_url : Text → Option UrlParts
  pub split_host_port : Text → Option Text
  pub parse_ip : Text → Option Text
  pub pem : Text → Text → Text
  pub crypto : Crypto
  pub Credentials : Type 0
  pub x509_key_pair : Text → Text → Option Credentials
  pub target_url : Text → Option Url

pub record Fates : Type 0 where
  pub makes_dir : Bool
  pub opens_log : Bool
  pub opens_db : Bool
  pub has_journal : Bool
  pub has_tables : Bool
  pub cert_fate : WriteFate
  pub key_fate : WriteFate
  pub now : Time
  pub then_now : Time
  pub year_later : Time
  pub events : List ServerEvent

unfoldable pub ended : Ending → Files → Run
ended e files = record { actions = []; ending = e; files = files }

unfoldable pub did : Action → Run → Run
did a r = record r { actions = a ∷ r.actions }

-- fatalf, or os.Exit(1), unless it went well.
unfoldable pub need : Bool → Failure → Files → Run → Run
need true f files r = r
need false f files r = ended (exits f) files

abbrev pub at_return : Action → Ending → List Action
at_return a returned = a ∷ []
at_return a going_on = []
at_return a (exits f) = []

-- `defer`
unfoldable pub deferring : Action → Run → Run
deferring a r = record r { actions = r.actions ++ at_return a r.ending }

-- InitSchema: the write-ahead log first, then the tables.
unfoldable pub init_schema : Bool → Bool → Bool
init_schema has_journal has_tables = has_journal && has_tables

module _ (p : Packages) where
  unfoldable pub resolve_config_path : Flags → Text
  resolve_config_path f =
      if text_eq f.config_file [] then p.join f.data_dir (codes "ai.local.apml") else f.config_file

  unfoldable pub load_config : Text → Files → Result ParseError ApmlConfig
  load_config config_path files = parse p.yaml p.load (lookup config_path files)

  unfoldable pub resolve_cert_paths : Text → Text × Text
  resolve_cert_paths data_dir =
      (p.join data_dir (codes "ai.local.crt"), p.join data_dir (codes "ai.local.key"))

  unfoldable pub db_path : Text → ApmlConfig → Text
  db_path data_dir cfg = p.join data_dir (build_db_name cfg)

  module _ (f : Flags) where
    -- generateCert, behind which main returns.
    unfoldable pub behind_cert : Files × Result CertError (Unit {0}) → Run
    behind_cert (files, ok u) = ended returned files
    behind_cert (files, err e) = ended (exits (not_generated e)) files

    unfoldable pub generate_cert : Fates → ApmlConfig → Files → Run
    generate_cert w cfg files =
        let paths = resolve_cert_paths f.data_dir in
        behind_cert (
          generate_self_signed_cert p.parse_url p.split_host_port p.parse_ip p.pem p.crypto
            w.cert_fate w.key_fate cfg.base_uri paths.0 paths.1 w.now w.then_now files)

    unfoldable pub back_up : ApmlConfig → Text → WriteFate → WriteFate → Files → Files
    back_up cfg timestamp latest_fate history_fate files =
        backup_apml_configuration p.join f.data_dir (resolve_config_path f) (build_plan_name cfg)
          timestamp latest_fate history_fate files

    abbrev pub bind_data_plane : Action
    bind_data_plane =
        data_plane_bound f.proxy_addr (resolve_cert_paths f.data_dir).0
          (resolve_cert_paths f.data_dir).1

    -- waitForShutdown behind the signal: the control plane takes no more calls, and main goes on
    -- when the last one is over. The other goroutines are not stopped.
    unfoldable pub shut_down : ApmlConfig → List ServerEvent → Files → Run
    shut_down cfg [] files = ended going_on files
    shut_down cfg (grpc_bound ∷ events) files =
        did (control_plane_bound f.grpc_addr) (shut_down cfg events files)
    shut_down cfg (proxy_bound ∷ events) files = did bind_data_plane (shut_down cfg events files)
    shut_down cfg (grpc_fails ∷ events) files = ended (exits control_plane_crashed) files
    shut_down cfg (proxy_fails ∷ events) files = ended (exits data_plane_crashed) files
    shut_down cfg (signalled ∷ events) files = shut_down cfg events files
    shut_down cfg (drained ∷ events) files = did grpc_stopped (ended returned files)
    shut_down cfg (backed_up timestamp latest_fate history_fate ∷ events) files =
        shut_down cfg events (back_up cfg timestamp latest_fate history_fate files)

    -- startServices, the goroutine of the backup, and waitForShutdown until the signal.
    unfoldable pub serve_until : ApmlConfig → List ServerEvent → Files → Run
    serve_until cfg [] files = ended going_on files
    serve_until cfg (grpc_bound ∷ events) files =
        did (control_plane_bound f.grpc_addr) (serve_until cfg events files)
    serve_until cfg (proxy_bound ∷ events) files =
        did bind_data_plane (serve_until cfg events files)
    serve_until cfg (grpc_fails ∷ events) files = ended (exits control_plane_crashed) files
    serve_until cfg (proxy_fails ∷ events) files = ended (exits data_plane_crashed) files
    serve_until cfg (signalled ∷ events) files = shut_down cfg events files
    serve_until cfg (drained ∷ events) files = serve_until cfg events files
    serve_until cfg (backed_up timestamp latest_fate history_fate ∷ events) files =
        serve_until cfg events (back_up cfg timestamp latest_fate history_fate files)

    -- initServices behind StartWorker: the control plane, then the data plane; and what main does
    -- with them.
    unfoldable pub with_services :
        Fates → ApmlConfig → Result ControlError p.Credentials → Result Text (Map Url) → Files → Run
    with_services w cfg (err e) targets files = ended (exits (no_control_plane e)) files
    with_services w cfg (ok credentials) (err path) files = ended (exits (no_data_plane path)) files
    with_services w cfg (ok credentials) (ok targets) files =
        deferring backend_stopped (serve_until cfg w.events files)

    unfoldable pub run_services : Fates → ApmlConfig → Files → Run
    run_services w cfg files = did worker_started (
        with_services w cfg (new_server p.pem p.crypto p.x509_key_pair w.now w.year_later)
          (new_proxy_server p.target_url cfg) files)

    -- initDatabase and what is deferred behind it.
    unfoldable pub init_database : Fates → ApmlConfig → Files → Run
    init_database w cfg files = need w.opens_db no_database files (
        need (init_schema w.has_journal w.has_tables) no_schema files (
          did (db_opened (db_path f.data_dir cfg))
            (deferring db_closed (run_services w cfg files))))

    unfoldable pub serve_or_generate : Fates → ApmlConfig → Bool → Files → Run
    serve_or_generate w cfg true files = generate_cert w cfg files
    serve_or_generate w cfg false files =
        let paths = resolve_cert_paths f.data_dir in
        need (cert_exists paths.0 paths.1 files) no_credentials files (init_database w cfg files)

    unfoldable pub with_config : Fates → Result ParseError ApmlConfig → Files → Run
    with_config w (err e) files = ended (exits (bad_config e)) files
    with_config w (ok cfg) files =
        need w.opens_log no_log files (serve_or_generate w cfg f.gen_cert_only files)

    unfoldable pub server_main : Fates → Files → Run
    server_main w files = need w.makes_dir no_data_directory files (
        did (dir_made f.data_dir) (with_config w (load_config (resolve_config_path f) files) files))
