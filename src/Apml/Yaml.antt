-- ===== src/Apml/Yaml.antt =====
-- Parse and UnmarshalYAML of internal/apml/parser.go.
-- The YAML library is a parameter: `Node` is a value node, `value` its scalar text, the decoders
-- are `Decode` into a struct, or into a map that may hold entries already. The content of a
-- mapping node is its list of pairs.
use ai_local.Prelude.{
  List, Map, Option, Result, Text, [], codes, err, has_prefix, if◌then◌else◌, insert, none, ok,
  some, text_eq, ◌∷◌,
}
use ai_local.Apml.{ApmlConfig, ProviderConfig, QuotaDetail, RouteConfig}
use ai_local.Apml.Validate.{ConfigError, validate}

pub data ParseError : Type 0 where
  read_failed : ParseError
  not_a_mapping : ParseError
  bad_route : Text → Text → ParseError
  bad_quotas bad_providers bad_yaml : Text → ParseError
  invalid_config : ConfigError → ParseError

-- The zero value of APMLConfig.
abbrev pub zero_config : ApmlConfig
zero_config = record {
  title = [];
  base_uri = [];
  version = [];
  plan_version = [];
  quotas = [];
  providers = [];
  routes = [];
}

abbrev pub lift :
    {A : Type 0}
    → (Text → ParseError)
    → (A → ApmlConfig)
    → Result Text A
    → Result ParseError ApmlConfig
lift wrong set (ok a) = ok (set a)
lift wrong set (err e) = err (wrong e)

pub record Yaml (Node : Type 0) : Type 0 where
  pub value : Node → Text
  pub decode_route : Node → Result Text RouteConfig
  pub decode_quotas : Node → Map QuotaDetail → Result Text (Map QuotaDetail)
  pub decode_providers : Node → Map ProviderConfig → Result Text (Map ProviderConfig)

module _ {Node : Type 0} (y : Yaml Node) where
  -- The `switch` on a key that is no route; a key that it does not know is passed over.
  unfoldable pub set_field : Text → Node → ApmlConfig → Result ParseError ApmlConfig
  set_field key node c =
      if text_eq key (codes "title")
      then ok (record c { title = y.value node })
      else if text_eq key (codes "baseUri")
      then ok (record c { base_uri = y.value node })
      else if text_eq key (codes "version")
      then ok (record c { version = y.value node })
      else if text_eq key (codes "plan_version")
      then ok (record c { plan_version = y.value node })
      else if text_eq key (codes "quotas")
      then lift bad_quotas (λ m. record c { quotas = m }) (y.decode_quotas node c.quotas)
      else if text_eq key (codes "providers")
      then lift bad_providers (λ m. record c { providers = m })
          (y.decode_providers node c.providers)
      else ok c

  -- One round of the loop.
  unfoldable pub apply_entry : Text → Node → ApmlConfig → Result ParseError ApmlConfig
  apply_entry key node c =
      if has_prefix key (codes "/")
      then lift (bad_route key) (λ route. record c { routes = insert key route c.routes })
          (y.decode_route node)
      else set_field key node c

  unfoldable pub apply_entries : List (Text × Node) → ApmlConfig → Result ParseError ApmlConfig
  apply_entries [] c = ok c
  apply_entries ((key, node) ∷ content) c = elim (apply_entry key node c) [
    | err e ↦ err e
    | ok d ↦ apply_entries content d
  ]

  -- UnmarshalYAML; `none` is a node that is no mapping.
  unfoldable pub unmarshal_yaml :
      Option (List (Text × Node)) → ApmlConfig → Result ParseError ApmlConfig
  unmarshal_yaml none c = err not_a_mapping
  unmarshal_yaml (some content) c = apply_entries content (record c { routes = [] })

  abbrev pub accept_valid : ApmlConfig → Option ConfigError → Result ParseError ApmlConfig
  accept_valid c none = ok c
  accept_valid c (some e) = err (invalid_config e)

  -- Parse, from the bytes of the file, `none` if it cannot be read. `load` is the parser of YAML
  -- text: it refuses the text, finds no document, or gives the document's node.
  unfoldable pub parse :
      (Text → Result Text (Option (Option (List (Text × Node)))))
      → Option Text
      → Result ParseError ApmlConfig
  parse load none = err read_failed
  parse load (some file) = elim (load file) [
    | err e ↦ err (bad_yaml e)
    | ok none ↦ accept_valid zero_config (validate zero_config)
    | ok (some node) ↦ elim (unmarshal_yaml node zero_config) [
      | err e ↦ err e
      | ok c ↦ accept_valid c (validate c)
    ]
  ]
