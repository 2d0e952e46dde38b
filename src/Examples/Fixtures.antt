-- ===== src/Examples/Fixtures.antt =====
-- The resources of internal/testutil/conduit.go, run through the model.
use conduit_operator.Prelude.{String, ◌≡◌, refl, none, some, [], ◌∷◌, Option, map}
use conduit_operator.Config.{env_vars, connectors_env_vars, settings_env_vars, env_var}
use conduit_operator.Validator.Connector.{
  validate_connector_plugin, validate_connector_plugin_type, error_list, fetch_yaml_spec,
  scan_settings, validate_config, validate_connector, validate_connector_parameters,
  validate_settings, value_or_secret,
}
use conduit_operator.Plugin.{validate_plugin, validate_plugin_type, is_from_org}
use conduit_operator.Testutil.{
  setup_sample_conduit, setup_bad_name_conduit, setup_bad_validation_conduit, setup_secret_conduit,
  setup_source_proc_conduit,
}
use conduit_operator.Api.Types.{Conduit}
use conduit_operator.Semver.{at_least_minor}
use conduit_operator.Webhook.Object.{conduit}
use conduit_operator.Webhook.Validator.{
  admitted, refused, Admission, validate_create, registry, scan_connectors, scan_processors,
  validate_conduit_version, validate_connectors, validate_parts, validate_processors,
  validate_registry,
}
use conduit_operator.Examples.Versions.{small}
use conduit_operator.Examples.Server.{hook}
use conduit_operator.Examples.Admitted.{files}
use conduit_operator.System.{Webhook, service}
use conduit_operator.Validator.Listing.{
  PluginInfo, filter_connector, first_containing, format_parts, format_plugin_name,
}
use conduit_operator.Prelude.Dict.{lookup, insert}
use conduit_operator.Validator.FieldError.{invalid}
use conduit_operator.Webhook.Defaulter.{
  default_conduit, default_connector, default_plugin, default_spec,
}
use conduit_operator.Prelude.Lists.{any, contains}
use conduit_operator.Strings.Case.{lower_char, of_code, to_lower, trim_spaces}
use conduit_operator.Strings.Prefix.{cut_prefix, has_prefix, has_substring, trim_prefix}
use conduit_operator.Strings.Quote.{quote}
use conduit_operator.Strings.Split.{split_path}
use conduit_operator.Validator.Processor.{
  after_download, cleanup, plugin_wasm, register_file, remove_file, save_wasm, validate_processor,
  validate_processor_plugin, validate_standalone_processor,
}
use conduit_operator.Webhook.Validator.Wired.{registry_factory}

-- With a list that has the connector of kafka, whose source asks for `topics`.
abbrev kafka : PluginInfo
kafka = record { name = "conduit-connector-kafka"; org = "conduitio"; url = ""; version = "v0.1.0" }

abbrev required : Option String → Option String
required none = some "error validating \"topics\": required parameter is not provided"
required (some v) = none

abbrev asking : Webhook
asking = record hook {
  specs = record {
    Spec = String;
    yaml_specification = λ body version. body;
    validate_source = λ spec config. required (lookup "topics" config);
    validate_destination = λ spec config. none;
  };
  list = ("conduit-connector-kafka", kafka) ∷ [];
}

abbrev verdict : Conduit → Admission
verdict c =
    (validate_create (service asking) small (at_least_minor 11) (λ s. none) (conduit c) files).1

sample_test : verdict setup_sample_conduit ≡ admitted
unfolding validate_create is_from_org insert any contains lower_char of_code to_lower trim_spaces
    cut_prefix has_prefix has_substring trim_prefix quote split_path error_list fetch_yaml_spec
    scan_settings validate_config validate_connector validate_connector_parameters validate_settings
    value_or_secret filter_connector first_containing format_parts format_plugin_name after_download
    cleanup plugin_wasm register_file remove_file save_wasm validate_processor
    validate_processor_plugin validate_standalone_processor default_connector default_plugin
    default_spec registry_factory registry scan_connectors scan_processors validate_conduit_version
    validate_connectors validate_parts validate_processors validate_registry connectors_env_vars
    env_var env_vars validate_plugin validate_connector_plugin validate_plugin_type
    validate_connector_plugin_type lookup default_conduit settings_env_vars
sample_test = refl

source_proc_test : verdict setup_source_proc_conduit ≡ admitted
unfolding validate_create is_from_org insert any contains lower_char of_code to_lower trim_spaces
    cut_prefix has_prefix has_substring trim_prefix quote split_path error_list fetch_yaml_spec
    scan_settings validate_config validate_connector validate_connector_parameters validate_settings
    value_or_secret filter_connector first_containing format_parts format_plugin_name after_download
    cleanup plugin_wasm register_file remove_file save_wasm validate_processor
    validate_processor_plugin validate_standalone_processor default_connector default_plugin
    default_spec registry_factory registry scan_connectors scan_processors validate_conduit_version
    validate_connectors validate_parts validate_processors validate_registry connectors_env_vars
    env_var env_vars validate_plugin validate_connector_plugin validate_plugin_type
    validate_connector_plugin_type lookup default_conduit settings_env_vars
source_proc_test = refl

-- As conduit_webhook_test.go expects it.
bad_validation_test :
    verdict setup_bad_validation_conduit
    ≡ refused "sample" (
        record {
          type = invalid;
          path = "spec" ∷ "connectors" ∷ "parameter" ∷ [];
          bad_value = "source";
          detail = "error validating \"topics\": required parameter is not provided";
        }
        ∷ [])
unfolding validate_create is_from_org insert any contains lower_char of_code to_lower trim_spaces
    cut_prefix has_prefix has_substring trim_prefix quote split_path error_list fetch_yaml_spec
    scan_settings validate_config validate_connector validate_connector_parameters validate_settings
    value_or_secret filter_connector first_containing format_parts format_plugin_name after_download
    cleanup plugin_wasm register_file remove_file save_wasm validate_processor
    validate_processor_plugin validate_standalone_processor default_connector default_plugin
    default_spec registry_factory registry scan_connectors scan_processors validate_conduit_version
    validate_connectors validate_parts validate_processors validate_registry connectors_env_vars
    env_var env_vars validate_plugin validate_connector_plugin validate_plugin_type
    validate_connector_plugin_type lookup default_conduit settings_env_vars
bad_validation_test = refl

secret_test :
    env_vars setup_secret_conduit
    ≡ record { name = "KEY1"; value_from = some (record { name = "objref1"; key = "key1" }) } ∷ []
unfolding env_vars connectors_env_vars settings_env_vars env_var
secret_test = refl

-- The defaults take the name for a connector of conduit's own.
bad_name_test :
    map (λ cc. cc.plugin_name) (default_conduit (λ k. k) setup_bad_name_conduit).spec.connectors
    ≡ "builtin:generator" ∷ "builtin:log" ∷ []
unfolding default_conduit default_spec default_connector default_plugin contains to_lower has_prefix
bad_name_test = refl
