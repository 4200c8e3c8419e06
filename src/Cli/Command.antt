-- ===== src/Cli/Command.antt =====
-- cmd/cli/main.go: the command that the arguments name, the address of the control plane and the way
-- of a call to it and back.
use ai_local.Prelude.{
  Bool, List, Option, Result, Text, [], codes, err, if◌then◌else◌, none, ok, some, text_eq, ℕ, ◌++◌,
  ◌∷◌,
}
use ai_local.Keystore.{Store}
use ai_local.Usage.Tables.{Time}
use ai_local.Admin.{AdminError}
use ai_local.Cli.{StatsCliOptions}
use ai_local.Cli.Output.{line}

-- What the control plane keeps: the keys and the debug switch.
pub record Control : Type 0 where
  pub store : Store
  pub debug : Bool

-- A call is served and answered, served with its answer lost, or does not arrive.
pub data Wire : Type 0 where
  answered unanswered unreachable : Wire

pub data RpcError : Type 0 where
  no_answer : RpcError
  refused : AdminError → RpcError

abbrev pub reply : {S A : Type 0} → S × Result AdminError A → S × Result RpcError A
reply (s, ok a) = (s, ok a)
reply (s, err e) = (s, err (refused e))

abbrev pub call : {S A : Type 0} → Wire → (S → S × Result AdminError A) → S → S × Result RpcError A
call answered f s = reply (f s)
call unanswered f s = ((f s).0, err no_answer)
call unreachable f s = (s, err no_answer)

pub data Command : Type 0 where
  route_list quota_list key_list usage_error no_route no_uuid : Command
  key_add key_del debug_action : Text → Command
  stats : List Text → Command

-- The `switch` on the action of `key`, with the arguments behind it.
unfoldable pub key_command : Text → List Text → Command
key_command action rest =
    if text_eq action (codes "list")
    then key_list
    else if text_eq action (codes "add")
    then elim rest [ [] ↦ no_route | route ∷ more ↦ key_add route ]
    else if text_eq action (codes "del")
    then elim rest [ [] ↦ no_uuid | uuid ∷ more ↦ key_del uuid ]
    else usage_error

-- The `switch` on the resource; `after` is what stands behind it, its first word the action.
unfoldable pub resource_command : Text → Text → List Text → List Text → Command
resource_command resource action rest after =
    if text_eq resource (codes "route")
    then if text_eq action (codes "list") then route_list else usage_error
    else if text_eq resource (codes "quota")
    then if text_eq action (codes "list") then quota_list else usage_error
    else if text_eq resource (codes "key")
    then key_command action rest
    else if text_eq resource (codes "stats")
    then stats after
    else if text_eq resource (codes "debug")
    then debug_action action
    else usage_error

unfoldable pub command_of : List Text → Command
command_of [] = usage_error
command_of (resource ∷ []) = resource_command resource [] [] []
command_of (resource ∷ action ∷ rest) = resource_command resource action rest (action ∷ rest)

-- What a run meets: the variable AI_LOCAL_ADDR and the flag -addr, whether a client can be made and
-- else the reason, the wire, what is typed at the two prompts or their error, the flags as package
-- `flag` reads them, the clocks on the two sides, and what the key store draws.
pub record Surroundings : Type 0 where
  pub env_addr : Text
  pub flag_addr : Option Text
  pub connects : Bool
  pub reason : Text
  pub wire : Wire
  pub real_key : Result Text Text
  pub alias : Result Text Text
  pub read_flags : List Text → Option StatsCliOptions
  pub here : Time
  pub there : Time
  pub id : Option Text
  pub entropy : Option (List ℕ)
  pub query_fails : Bool

-- The address of the control plane.
unfoldable pub parse_cli_config : Text → Option Text → Text
parse_cli_config env (some addr) = addr
parse_cli_config env none = if text_eq env [] then codes "127.0.0.1:50051" else env

-- The text of the error of newAdminClient, as main prints it.
unfoldable pub connect_failed : Surroundings → Text
connect_failed w = line (
    codes "error: failed to connect to control plane at "
    ++ parse_cli_config w.env_addr w.flag_addr
    ++ codes ": "
    ++ w.reason)
