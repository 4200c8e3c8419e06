-- ===== src/Apml/Validate.antt =====
-- APMLConfig.validate of internal/apml/parser.go. `none` is the nil error; a loop over a map
-- returns at the first entry that fails, in the order of the list.
use ai_local.Prelude.{
  Bool, List, Map, Option, Text, [], eqb_ℤ, false, if◌then◌else◌, lookup, ltb_ℤ, none, not, pos,
  some, text_eq, true, ◌&&◌, ◌||◌, ◌∷◌,
}
use ai_local.Apml.{
  ApmlConfig, EventConfig, ProviderConfig, QuotaDetail, RouteConfig, StreamingConfig, UsageConfig,
  last, per_key, shared, split,
}
use ai_local.Apml.Names.{is_alpha_name, is_plan_name}

pub data ConfigError : Type 0 where
  title_required base_uri_required version_required plan_version_required : ConfigError
  bad_plan_version : Text → ConfigError
  no_routes : ConfigError
  bad_quota_name negative_quota : Text → ConfigError
  bad_quota_mode : Text → Text → ConfigError
  bad_provider_name host_required : Text → ConfigError
  usage_missing streaming_missing : ConfigError
  usage_input_required usage_output_required : Text → ConfigError
  unknown_streaming_mode : Text → Text → ConfigError
  last_input_required last_output_required last_blocks_present : Text → ConfigError
  split_blocks_required split_input_incomplete split_output_incomplete : Text → ConfigError
  split_fields_present : Text → ConfigError
  route_provider_required : Text → ConfigError
  unknown_provider unknown_quota : Text → Text → ConfigError

-- `if test { return err }`, and what stands below it
abbrev pub fail_if : Bool → ConfigError → Option ConfigError → Option ConfigError
fail_if true e rest = some e
fail_if false e rest = rest

-- A block of tests, and what stands below it.
abbrev pub or_else : Option ConfigError → Option ConfigError → Option ConfigError
or_else none rest = rest
or_else (some e) rest = some e

abbrev pub is_empty {ℓ} : {A : Type ℓ} → List A → Bool
is_empty [] = true
is_empty (x ∷ s) = false

abbrev pub is_some {ℓ} : {A : Type ℓ} → Option A → Bool
is_some none = false
is_some (some a) = true

-- for name, v := range m
unfoldable pub first_error {ℓ} :
    {V : Type ℓ} → (Text → V → Option ConfigError) → Map V → Option ConfigError
first_error check [] = none
first_error check ((name, v) ∷ m) = or_else (check name v) (first_error check m)

unfoldable pub check_metadata : ApmlConfig → Option ConfigError
check_metadata c = fail_if (is_empty c.title) title_required (
    fail_if (is_empty c.base_uri) base_uri_required (
      fail_if (is_empty c.version) version_required (
        fail_if (is_empty c.plan_version) plan_version_required (
          fail_if (not (is_plan_name c.plan_version)) (bad_plan_version c.plan_version)
            (fail_if (is_empty c.routes) no_routes none)))))

unfoldable pub check_quota : Text → QuotaDetail → Option ConfigError
check_quota name q = fail_if (not (is_alpha_name name)) (bad_quota_name name) (
    fail_if (ltb_ℤ q.daily (pos 0) || ltb_ℤ q.monthly (pos 0)) (negative_quota name) (
      if eqb_ℤ q.daily (pos 0) && eqb_ℤ q.monthly (pos 0)
      then none
      else fail_if (not (text_eq q.mode per_key) && not (text_eq q.mode shared))
          (bad_quota_mode name q.mode) none))

-- The block for mode `last`.
unfoldable pub check_last : Text → StreamingConfig → Option ConfigError
check_last name s = fail_if (is_empty s.input_tokens) (last_input_required name) (
    fail_if (is_empty s.output_tokens) (last_output_required name)
      (fail_if (is_some s.input || is_some s.output) (last_blocks_present name) none))

-- The block for mode `split`, once both sub-blocks are known to be there.
unfoldable pub check_blocks :
    Text → StreamingConfig → EventConfig → EventConfig → Option ConfigError
check_blocks name s i o =
    fail_if (is_empty i.chunk_type || is_empty i.input_tokens) (split_input_incomplete name) (
      fail_if (is_empty o.chunk_type || is_empty o.output_tokens) (split_output_incomplete name) (
        fail_if (not (is_empty s.input_tokens) || not (is_empty s.output_tokens))
          (split_fields_present name) none))

unfoldable pub check_split_parts :
    Text → StreamingConfig → Option EventConfig → Option EventConfig → Option ConfigError
check_split_parts name s none o = some (split_blocks_required name)
check_split_parts name s (some i) none = some (split_blocks_required name)
check_split_parts name s (some i) (some o) = check_blocks name s i o

unfoldable pub check_split : Text → StreamingConfig → Option ConfigError
unfolding check_split_parts
check_split name s = check_split_parts name s s.input s.output

unfoldable pub check_streaming : Text → StreamingConfig → Option ConfigError
check_streaming name s =
    fail_if (not (text_eq s.mode split || text_eq s.mode last)) (unknown_streaming_mode name s.mode)
      (or_else (if text_eq s.mode last then check_last name s else none)
        (if text_eq s.mode split then check_split name s else none))

unfoldable pub check_usage : Text → UsageConfig → Option ConfigError
check_usage name u =
    fail_if (is_empty u.input_tokens) (usage_input_required name)
      (fail_if (is_empty u.output_tokens) (usage_output_required name) none)

unfoldable pub check_usage_field : Text → Option UsageConfig → Option ConfigError
check_usage_field name none = some usage_missing
check_usage_field name (some u) = check_usage name u

unfoldable pub check_streaming_field : Text → Option StreamingConfig → Option ConfigError
check_streaming_field name none = some streaming_missing
check_streaming_field name (some s) = check_streaming name s

unfoldable pub check_provider : Text → ProviderConfig → Option ConfigError
check_provider name p = fail_if (not (is_alpha_name name)) (bad_provider_name name) (
    fail_if (is_empty p.host) (host_required name)
      (or_else (check_usage_field name p.usage) (check_streaming_field name p.streaming)))

unfoldable pub check_route : ApmlConfig → Text → RouteConfig → Option ConfigError
check_route c path r = fail_if (is_empty r.provider) (route_provider_required path) (
    fail_if (not (is_some (lookup r.provider c.providers))) (unknown_provider path r.provider) (
      fail_if (not (is_empty r.quota) && not (is_some (lookup r.quota c.quotas)))
        (unknown_quota path r.quota) none))

unfoldable pub validate : ApmlConfig → Option ConfigError
validate c = or_else (check_metadata c) (
    or_else (first_error check_quota c.quotas)
      (or_else (first_error check_provider c.providers) (first_error (check_route c) c.routes)))
