-- ===== src/Tests/Start.antt =====
-- A gateway that starts, serves and is stopped by a signal, and one whose data plane crashes.
use ai_local.Server.{build_db_name, clean}
use ai_local.Server.Control.{control_template, generate_ephemeral_grpc_tls_config, new_server}
use ai_local.Proxy.Answer.{new_proxy_server}
use ai_local.Proxy.Rewrite.{build_target_url, setup_entries, setup_routes, target_text}
use ai_local.Apml.Names.{is_plan_name, is_alpha_name}
use ai_local.Apml.Validate.{
  validate, check_metadata, check_blocks, check_last, check_provider, check_quota, check_route,
  check_split, check_streaming, check_streaming_field, check_usage, check_usage_field, first_error,
}
use ai_local.Apml.Yaml.{parse, unmarshal_yaml, apply_entries, apply_entry, set_field}
use ai_local.Prelude.{
  List, Text, [], codes, false, has_prefix, insert, lookup, none, refl, some, text_eq, true, ◌++◌,
  ◌∷◌, ◌≡◌,
}
use ai_local.Server.Main.{
  ServerEvent, Fates, Flags, Packages, server_main, parse_flags, backed_up, drained, grpc_bound,
  proxy_bound, returned, signalled, need, did, with_config, load_config, resolve_config_path,
  db_path, deferring, ended, init_database, init_schema, resolve_cert_paths, run_services,
  serve_or_generate, serve_until, shut_down, with_services,
}
use ai_local.Server.Lifecycle.{IsReady, binds, does, server_main-IsReady}
use ai_local.Server.Ending.{IsOrderly, last_of, server_main-IsOrderly}
use ai_local.Tests.Config.{TestNode, test_yaml, load_document}
use ai_local.Tests.Tls.{crypto}
use ai_local.Tls.{Files, written, cert_exists}
use ai_local.Usage.Tables.{Time}

abbrev noon : Time
noon = record { year = 2026; month = 7; day = 1; nanos = 0 }

abbrev packages : Packages
packages = record {
  Node = TestNode;
  yaml = test_yaml;
  load = load_document;
  join = λ dir name. dir ++ b'/' ∷ name;
  parse_url = λ uri. none;
  split_host_port = λ host. none;
  parse_ip = λ host. none;
  pem = λ kind der. der;
  crypto = crypto;
  Credentials = Text;
  x509_key_pair = λ cert key. some cert;
  target_url = λ text. some (record { host = text; path = []; others = [] });
}

abbrev flags : Flags
flags = record {
  data_dir = codes "/d";
  config_file = [];
  grpc_addr = codes ":50051";
  proxy_addr = codes ":8443";
  gen_cert_only = false;
}

abbrev disk : Files
disk =
    (codes "/d/ai.local.apml", codes "title")
    ∷ (codes "/d/ai.local.crt", codes "c")
    ∷ (codes "/d/ai.local.key", codes "k")
    ∷ []

abbrev fates : List ServerEvent → Fates
fates events = record {
  makes_dir = true;
  opens_log = true;
  opens_db = true;
  has_journal = true;
  has_tables = true;
  cert_fate = written;
  key_fate = written;
  now = noon;
  then_now = noon;
  year_later = noon;
  events = events;
}

abbrev a_day : List ServerEvent
a_day =
    grpc_bound
    ∷ backed_up (codes "20260701-120000") written written
    ∷ proxy_bound
    ∷ signalled
    ∷ drained
    ∷ []

defaults : (parse_flags (λ name. none) false).data_dir ≡ codes "/etc/ai.local"
unfolding parse_flags
defaults = refl

whole_day :
    (does binds (server_main packages flags (fates a_day) disk).actions ≡ true)
    × ((server_main packages flags (fates a_day) disk).ending ≡ returned)
unfolding does server_main need did with_config load_config parse lookup text_eq resolve_config_path
    unmarshal_yaml apply_entries apply_entry has_prefix set_field validate check_metadata
    is_plan_name insert is_alpha_name check_blocks check_last check_provider check_quota check_route
    check_split check_streaming check_streaming_field check_usage check_usage_field first_error
    build_target_url new_proxy_server setup_entries setup_routes target_text control_template
    generate_ephemeral_grpc_tls_config new_server db_path deferring ended init_database init_schema
    resolve_cert_paths run_services serve_or_generate serve_until shut_down with_services
    build_db_name clean cert_exists
whole_day = (refl, refl)

server_main-IsReady_example : IsReady packages flags disk
server_main-IsReady_example = server_main-IsReady packages flags (fates a_day) disk whole_day.0

server_main-IsOrderly_example :
    IsOrderly
      (last_of packages flags false)
      (server_main packages flags (fates a_day) disk).ending
      (server_main packages flags (fates a_day) disk).actions
server_main-IsOrderly_example = server_main-IsOrderly packages flags (fates a_day) disk
