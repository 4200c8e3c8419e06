-- ===== src/Apml.antt =====
-- internal/apml/types.go: the configuration that the gateway is started with.
-- A pointer field that may be nil is an `Option`. Of a `request_option` value only one level of
-- mapping matters to the program; any deeper value is kept as its JSON text.
use ai_local.Prelude.{List, Map, Option, Text, codes, ℤ}
pub mod Names
pub mod Validate
pub mod Valid
pub mod Streaming
pub mod Sound
pub mod Resolve
pub mod Yaml
pub mod Parsed

pub record QuotaDetail : Type 0 where
  pub mode : Text
  pub daily : ℤ  -- int64
  pub monthly : ℤ  -- int64

pub record UsageConfig : Type 0 where
  pub input_tokens : Text
  pub output_tokens : Text

pub record EventConfig : Type 0 where
  pub chunk_type : Text
  pub input_tokens : Text
  pub output_tokens : Text

pub data OptionValue : Type 0 where
  block : List (Text × Text) → OptionValue
  plain : Text → OptionValue

pub record StreamingConfig : Type 0 where
  pub mode : Text
  pub input_tokens : Text
  pub output_tokens : Text
  pub input : Option EventConfig
  pub output : Option EventConfig
  pub request_option : Map OptionValue

pub record ProviderConfig : Type 0 where
  pub host : Text
  pub api_key_prefix : Text
  pub input_message : Text
  pub usage : Option UsageConfig
  pub streaming : Option StreamingConfig

pub record RouteConfig : Type 0 where
  pub provider : Text
  pub quota : Text

pub record ApmlConfig : Type 0 where
  pub title : Text
  pub base_uri : Text
  pub version : Text
  pub plan_version : Text
  pub quotas : Map QuotaDetail
  pub providers : Map ProviderConfig
  pub routes : Map RouteConfig

abbrev pub per_key : Text
per_key = codes "per_key"

abbrev pub shared : Text
shared = codes "shared"

abbrev pub split : Text
split = codes "split"

abbrev pub last : Text
last = codes "last"
