-- ===== src/Tests/Cli.antt =====
-- `key add`, typed in full and over a wire that does not reach.
use ai_local.Admin.{serve_add_key, add_to_route, add_answer}
use ai_local.Prelude.{
  List, Text, [], arith, codes, false, insert, lookup, none, ok, refl, some, text_eq, trim_space,
  true, values, ℕ, ◌∷◌, ◌≡◌, ◌≢◌,
}
use ai_local.Keystore.{
  new_store, add_key, find_duplicate, list_keys, register, make_record, store_record,
}
use ai_local.Cli.Dispatch.{cli_main, run_command, handle_key_add, typed_add, submit_key}
use ai_local.Cli.Command.{
  Control, Surroundings, Wire, answered, unreachable, unanswered, command_of, resource_command,
  key_command,
}
use ai_local.Cli.Output.{Output}
use ai_local.Cli.Effects.{cli_main_failed}
use ai_local.Cli.Added.{IsAdded, key_add_works}
use ai_local.Tests.Config.{gateway}
use ai_local.Usage.Tables.{Time, empty_database, format_date}

abbrev digest : Text → List ℕ
digest k = k

abbrev noon : Time
noon = record { year = 2026; month = 7; day = 1; nanos = 0 }

abbrev control : Control
control = record { store = new_store; debug = false }

abbrev desk : Wire → Surroundings
desk wire = record {
  env_addr = [];
  flag_addr = none;
  connects = true;
  reason = [];
  wire = wire;
  real_key = ok (codes "sk-real");
  alias = ok [];
  read_flags = λ args. none;
  here = noon;
  there = noon;
  id = some (codes "id-1");
  entropy = some (1 ∷ []);
  query_fails = false;
}

abbrev run_cli : Wire → Control × Output
run_cli wire =
    cli_main digest (λ t. t) (λ e. []) (λ e. []) [] format_date gateway empty_database
      (codes "key" ∷ codes "add" ∷ codes "/claude" ∷ []) (desk wire) control

key_added : (run_cli answered).1.status ≡ 0
unfolding cli_main command_of resource_command key_command run_command handle_key_add typed_add
    submit_key text_eq serve_add_key add_to_route lookup trim_space add_key find_duplicate list_keys
    values new_store register make_record store_record insert add_answer
key_added = refl

reaches_nothing : (run_cli unreachable).1.status ≡ 1
unfolding cli_main command_of resource_command key_command run_command handle_key_add typed_add
    submit_key text_eq serve_add_key add_to_route lookup trim_space add_key find_duplicate list_keys
    values new_store register make_record store_record insert add_answer
reaches_nothing = refl

cannot_reach : (run_cli unreachable).1.status ≢ 0
cannot_reach e = ground (arith, reaches_nothing)

no_doubt : unreachable ≢ unanswered
no_doubt e = cc

cli_main_failed_example : (run_cli unreachable).0 ≡ control
cli_main_failed_example =
    cli_main_failed digest (λ t. t) (λ e. []) (λ e. []) [] format_date gateway empty_database
      (codes "key" ∷ codes "add" ∷ codes "/claude" ∷ []) (desk unreachable) control no_doubt
      cannot_reach

key_add_works_example :
    IsAdded digest
      (λ t. t)
      (λ e. [])
      (λ e. [])
      []
      format_date
      gateway
      empty_database
      (codes "/claude")
      (desk answered)
      (run_cli answered)
key_add_works_example =
    key_add_works digest (λ t. t) (λ e. []) (λ e. []) [] format_date gateway empty_database
      (codes "/claude") [] (desk answered) control key_added
