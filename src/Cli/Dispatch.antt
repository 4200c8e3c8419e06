-- ===== src/Cli/Dispatch.antt =====
-- cmd/cli/main.go: what each command calls on the control plane, and what it prints. The text of an
-- error of the control plane is the parameter `describe`.
use ai_local.Prelude.{
  Bool, List, Option, Result, Text, [], codes, err, false, if◌then◌else◌, map, ok, some, text_eq,
  true, ℕ, ◌++◌, ◌∷◌,
}
use ai_local.Apml.{ApmlConfig}
use ai_local.Usage.Tables.{Time, Database}
use ai_local.Admin.{
  AddKeyRequest, AdminError, GetStatsResponse, list_routes, list_quotas, serve_list_keys,
  serve_add_key, serve_delete_key, get_stats, configure_debug, GetStatsRequest, StatsMode,
}
use ai_local.Cli.{StatsCliOptions, CliError, parse_stats_options, stats_request}
use ai_local.Cli.Output.{
  Output, prints, fails_with, line, route_cells, quota_cells, key_cells, table_or, table_text,
  print_stats,
}
use ai_local.Cli.Command.{
  call, command_of, connect_failed, Control, RpcError, Command, route_list, quota_list, key_list,
  usage_error, no_route, no_uuid, key_add, key_del, debug_action, stats, Surroundings,
}

module _ (sha256 : Text → List ℕ) (align : Text → Text) (describe : RpcError → Text)
    (describe_options : CliError → Text) (help : Text) (timestamp : Time → Text) (cfg : ApmlConfig)
    (db : Database) where
  abbrev rpc_failed : RpcError → Output
  rpc_failed e = fails_with (line (codes "rpc error: " ++ describe e))

  -- The two ways on from a call: the error, or what is printed of the answer.
  abbrev pub shown : {A : Type 0} → (A → Output) → Control × Result RpcError A → Control × Output
  shown print (c, ok a) = (c, print a)
  shown print (c, err e) = (c, rpc_failed e)

  -- A call that only reads.
  abbrev pub asked : {A : Type 0} → A → Control → Control × Result AdminError A
  asked answer c = (c, ok answer)

  unfoldable pub handle_route_list : Surroundings → Control → Control × Output
  handle_route_list w c =
      shown
        (λ routes. prints (
          align (
            table_text
              ((codes "URI" ∷ codes "QUOTA" ∷ codes "PROVIDER" ∷ []) ∷ map route_cells routes))))
        (call w.wire (asked (list_routes cfg)) c)

  unfoldable pub handle_quota_list : Surroundings → Control → Control × Output
  handle_quota_list w c =
      shown
        (λ quotas. prints (
          align (
            table_text (
              (codes "NAME" ∷ codes "DAILY" ∷ codes "MONTHLY" ∷ codes "MODE" ∷ codes "STATUS" ∷ [])
              ∷ map quota_cells quotas))))
        (call w.wire (asked (list_quotas cfg)) c)

  unfoldable pub handle_key_list : Surroundings → Control → Control × Output
  handle_key_list w c =
      shown
        (λ keys. prints (
          table_or align (codes "No active routing keys found inside keystore.")
            (codes "UUID"
              ∷ codes "ALIAS"
              ∷ codes "ROUTE"
              ∷ codes "REAL KEY"
              ∷ codes "INTERNAL KEY"
              ∷ [])
            key_cells keys))
        (call w.wire (asked (serve_list_keys c.store)) c)

  -- A call of AdminHandler.AddKey, on the whole of the control plane.
  abbrev pub add_on :
      Option Text → Option (List ℕ) → AddKeyRequest → Control → Control × Result AdminError Text
  add_on id entropy req c =
      let (s, answer) = serve_add_key sha256 cfg id entropy req c.store in
      (record c { store = s }, answer)

  abbrev pub generated : Text → Text
  generated key = b'\n' ∷ line (codes "Generated internal key successfully:") ++ line key

  unfoldable pub submit_key : Text → Text → Text → Surroundings → Control → Control × Output
  submit_key route real_key alias w c =
      shown (λ key. prints (generated key))
        (call w.wire
          (add_on w.id w.entropy (record { route = route; real_key = real_key; alias = alias })) c)

  abbrev input_failed : Text → Output
  input_failed e = fails_with (line (codes "input error: " ++ e))

  -- handleKeyAdd, from what is typed at its prompts.
  unfoldable pub typed_add :
      Text → Result Text Text → Result Text Text → Surroundings → Control → Control × Output
  typed_add route (err e) alias w c = (c, input_failed e)
  typed_add route (ok real_key) (err e) w c = (c, input_failed e)
  typed_add route (ok real_key) (ok alias) w c = submit_key route real_key alias w c

  unfoldable pub handle_key_add : Text → Surroundings → Control → Control × Output
  handle_key_add route w c = typed_add route w.real_key w.alias w c

  abbrev pub delete_on : Text → Control → Control × Result AdminError Bool
  delete_on uuid c =
      let (s, success) = serve_delete_key uuid c.store in (record c { store = s }, ok success)

  abbrev pub deletion : Text → Bool → Output
  deletion uuid true =
      prints (line (codes "Successfully revoked key tracking target [" ++ uuid ++ codes "]"))
  deletion uuid false = fails_with (
      line (codes "error: tracking entity target [" ++ uuid ++ codes "] not found inside keystore"))

  unfoldable pub handle_key_del : Text → Surroundings → Control → Control × Output
  handle_key_del uuid w c = shown (deletion uuid) (call w.wire (delete_on uuid) c)

  abbrev pub debug_on : Bool → Control → Control × Result AdminError Bool
  debug_on enable c =
      let (d, answer) = configure_debug (some enable) c.debug in (record c { debug = d }, answer)

  abbrev pub debug_line : Bool → Text
  debug_line true = codes "success: runtime debug logging successfully energized."
  debug_line false = codes "success: runtime debug logging gracefully deactivated."

  unfoldable pub handle_debug_action : Text → Surroundings → Control → Control × Output
  handle_debug_action action w c =
      shown (λ status. prints (line (debug_line status)))
        (call w.wire (debug_on (text_eq action (codes "on"))) c)

  abbrev pub stats_failed : Text → Output
  stats_failed text = fails_with (line (codes "error: " ++ text))

  abbrev pub stats_shown : StatsMode → Result RpcError GetStatsResponse → Output
  stats_shown mode (err e) = stats_failed (codes "rpc GetStats failed: " ++ describe e)
  stats_shown mode (ok resp) = elim (print_stats align mode resp) [
    | ok text ↦ prints text
    | err text ↦ stats_failed text
  ]

  abbrev pub stats_on :
      Surroundings → GetStatsRequest → Control → Control × Result AdminError GetStatsResponse
  stats_on w req c = (c, get_stats timestamp w.query_fails w.there (some db) (some req))

  -- handleStatsCommand, from the options.
  unfoldable pub show_stats :
      Result CliError StatsCliOptions → Surroundings → Control → Control × Output
  show_stats (err e) w c = (c, stats_failed (describe_options e))
  show_stats (ok o) w c =
      let req = stats_request w.here o in
      let (d, answer) = call w.wire (stats_on w req) c in (d, stats_shown req.mode answer)

  unfoldable pub handle_stats_command : List Text → Surroundings → Control → Control × Output
  handle_stats_command args w c = show_stats (parse_stats_options (w.read_flags args)) w c

  unfoldable pub run_command : Command → Surroundings → Control → Control × Output
  run_command route_list w c = handle_route_list w c
  run_command quota_list w c = handle_quota_list w c
  run_command key_list w c = handle_key_list w c
  run_command (key_add route) w c = handle_key_add route w c
  run_command (key_del uuid) w c = handle_key_del uuid w c
  run_command no_route w c =
      (c, fails_with (line (codes "error: missing target route, e.g., 'key add /claude'")))
  run_command no_uuid w c =
      (c, fails_with (line (codes "error: missing tracking key uuid, e.g., 'key del <uuid>'")))
  run_command (stats args) w c = handle_stats_command args w c
  run_command (debug_action action) w c = handle_debug_action action w c
  run_command usage_error w c = (c, fails_with help)

  -- The command line, on the arguments behind the global flags.
  unfoldable pub cli_main : List Text → Surroundings → Control → Control × Output
  cli_main [] w c = (c, fails_with help)
  cli_main (resource ∷ rest) w c =
      if w.connects
      then run_command (command_of (resource ∷ rest)) w c
      else (c, fails_with (connect_failed w))
