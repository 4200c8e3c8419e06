-- ===== src/Tests/Config.antt =====
-- A configuration that the validation accepts, and one that Parse reads.
use ai_local.Prelude.{
  List, Option, Result, Text, [], codes, has_prefix, insert, lookup, none, ok, pos, refl, some,
  text_eq, ◌↔◌, ◌∷◌, ◌≡◌,
}
use ai_local.Apml.{
  ApmlConfig, ProviderConfig, QuotaDetail, RouteConfig, StreamingConfig, per_key, split,
}
use ai_local.Apml.Validate.{
  validate, check_blocks, check_last, check_metadata, check_provider, check_quota, check_route,
  check_split, check_streaming, check_streaming_field, check_usage, check_usage_field, first_error,
}
use ai_local.Apml.Names.{is_alpha_name, is_plan_name}
use ai_local.Apml.Valid.{IsValid}
use ai_local.Apml.Parsed.{HasRoutes, parse_sound}
use ai_local.Apml.Sound.{validate_iff}
use ai_local.Apml.Yaml.{parse, Yaml, apply_entries, apply_entry, set_field, unmarshal_yaml}

abbrev claude : Text
claude = codes "claude"

abbrev claude_streaming : StreamingConfig
claude_streaming = record {
  mode = split;
  input_tokens = [];
  output_tokens = [];
  input = some (record {
    chunk_type = codes "message_start";
    input_tokens = codes "message.usage.input_tokens";
    output_tokens = [];
  });
  output = some (record {
    chunk_type = codes "message_delta";
    input_tokens = [];
    output_tokens = codes "usage.output_tokens";
  });
  request_option = [];
}

abbrev claude_provider : ProviderConfig
claude_provider = record {
  host = codes "api.anthropic.com";
  api_key_prefix = codes "X-API-Key";
  input_message = codes "messages.content";
  usage = some (record {
    input_tokens = codes "usage.input_tokens";
    output_tokens = codes "usage.output_tokens";
  });
  streaming = some claude_streaming;
}

abbrev medium : QuotaDetail
medium = record { mode = per_key; daily = pos 50000; monthly = pos 500000 }

abbrev claude_route : RouteConfig
claude_route = record { provider = claude; quota = codes "medium" }

-- One quota, provider and route of apml/ai.local.apml.
abbrev pub gateway : ApmlConfig
gateway = record {
  title = codes "AI Gateway Plan";
  base_uri = codes "https://ai.gateway";
  version = codes "draft";
  plan_version = codes "2026Q3";
  quotas = (codes "medium", medium) ∷ [];
  providers = (claude, claude_provider) ∷ [];
  routes = (codes "/claude", claude_route) ∷ [];
}

accepted : validate gateway ≡ none
unfolding validate check_metadata check_quota check_provider check_usage_field check_usage
    check_streaming_field check_streaming check_last check_split check_blocks check_route
    first_error is_alpha_name is_plan_name lookup text_eq
accepted = refl

pub gateway-IsValid : IsValid gateway
gateway-IsValid = (validate_iff gateway).0 accepted

validate_iff_example : (validate gateway ≡ none) ↔ IsValid gateway
validate_iff_example = validate_iff gateway

routed : lookup (codes "/claude") gateway.routes ≡ some claude_route
unfolding lookup text_eq
routed = refl

-- A document whose nodes stand for what they decode to.
pub data TestNode : Type 0 where
  scalar : Text → TestNode
  route_node : TestNode
  quotas_node : TestNode
  providers_node : TestNode

abbrev node_text : TestNode → Text
node_text (scalar s) = s
node_text _ = []

abbrev pub test_yaml : Yaml TestNode
test_yaml = record {
  value = node_text;
  decode_route = λ n. ok claude_route;
  decode_quotas = λ n m. ok ((codes "medium", medium) ∷ m);
  decode_providers = λ n m. ok ((claude, claude_provider) ∷ m);
}

abbrev document : List (Text × TestNode)
document =
    (codes "title", scalar (codes "AI Gateway Plan"))
    ∷ (codes "baseUri", scalar (codes "https://ai.gateway"))
    ∷ (codes "version", scalar (codes "draft"))
    ∷ (codes "plan_version", scalar (codes "2026Q3"))
    ∷ (codes "quotas", quotas_node)
    ∷ (codes "providers", providers_node)
    ∷ (codes "/claude", route_node)
    ∷ []

abbrev pub load_document : Text → Result Text (Option (Option (List (Text × TestNode))))
load_document file = ok (some (some document))

parsed : parse test_yaml load_document (some []) ≡ ok gateway
unfolding parse unmarshal_yaml apply_entries apply_entry set_field has_prefix insert validate
    check_metadata check_quota check_provider check_usage_field check_usage check_streaming_field
    check_streaming check_last check_split check_blocks check_route first_error is_alpha_name
    is_plan_name lookup text_eq
parsed = refl

parse_sound_example : IsValid gateway × HasRoutes gateway
parse_sound_example = parse_sound test_yaml load_document (some []) gateway parsed
