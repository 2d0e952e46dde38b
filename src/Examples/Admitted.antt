-- ===== src/Examples/Admitted.antt =====
-- The theorems on the resources that the webhook admits, at a validator whose server answers.
use conduit_operator.Prelude.{String, ◌≡◌, refl, none, List, [], ◌∷◌, inl}
use conduit_operator.Prelude.Result.{ok}
use conduit_operator.Prelude.Lists.{All}
use conduit_operator.Api.Types.{Conduit, namespaced_name}
use conduit_operator.Semver.{at_least_minor}
use conduit_operator.Validator.Connector.{
  Specs, validate_connector, validate_connector_plugin, validate_connector_plugin_type,
  validate_connector_parameters,
}
use conduit_operator.Validator.Processor.{
  Store, validate_processor, validate_processor_plugin, validate_standalone_processor,
}
use conduit_operator.Webhook.Defaulter.{
  default_conduit, default_spec, or_default, default_connector, default_plugin, default_processor,
  processor_defaulter,
}
use conduit_operator.Webhook.Object.{conduit}
use conduit_operator.Webhook.Validator.{
  Service, admitted, validate_create, validate_parts, registry, validate_registry,
  validate_conduit_version, validate_connectors, scan_processors, scan_connectors,
  validate_processors,
}
use conduit_operator.Webhook.Validator.Wired.{Clients, validator, registry_factory}
use conduit_operator.Webhook.Validator.Admitted.{IsSupported, HasPlugin, admitted-IsSupported}
use conduit_operator.Strings.Prefix.{trim_prefix}
use conduit_operator.Plugin.{validate_plugin, validate_plugin_type}
use conduit_operator.Controller.Cluster.{fetched}
use conduit_operator.Controller.Reconcile.{reconcile}
use conduit_operator.Controller.Reconcile.Returns.{Returns}
use conduit_operator.Controller.Reconcile.Created.{reconcile_of_created}
use conduit_operator.Examples.Parts.{sink, filter, with_registry, no_objects}
use conduit_operator.Examples.Versions.{small, small-IsDocumented, literal_IsRange}
use conduit_operator.Examples.Validation.{answering, directory, plugins}
use conduit_operator.Examples.Cluster.{Shop, tidy, libraries, reconciler}

abbrev pub specs : Specs
specs = record {
  Spec = String;
  yaml_specification = λ body version. body;
  validate_source = λ spec config. none;
  validate_destination = λ spec config. none;
}

abbrev pub files : Store (List String)
files = record { files = []; registry = [] }

abbrev pub clients : Clients (List String)
clients = record { Client = String; new_client = λ url. ok url; new_registry = λ cl w. (w, ok tt) }

abbrev checks : Service
checks = validator specs plugins answering no_objects [] directory clients (λ p fp w. (w, none))

-- One connector with a processor of the server's own.
abbrev pub small_resource : Conduit
small_resource = record with_registry {
  spec = record with_registry.spec {
    connectors =
        record sink { settings = []; processors = record filter { processor_url = "" } ∷ [] } ∷ [];
    processors = [];
  };
}

-- As the webhook leaves it.
abbrev pub defaulted : Conduit
defaulted = default_conduit (λ k. k) small_resource

pub creation :
    (validate_create checks small (at_least_minor 11) (λ _. none) (conduit defaulted) files).1
    ≡ admitted
unfolding validate_create default_conduit registry_factory validate_parts registry default_spec
    validate_registry validate_conduit_version trim_prefix or_default validate_connectors
    validate_connector validate_connector_plugin validate_plugin default_connector default_plugin
    validate_connector_plugin_type validate_plugin_type validate_connector_parameters
    scan_processors scan_connectors validate_processors default_processor processor_defaulter
    validate_processor validate_processor_plugin validate_standalone_processor
creation = refl

admitted-IsSupported_example :
    All (λ cc. IsSupported cc × All HasPlugin cc.processors) defaulted.spec.connectors
    × All HasPlugin defaulted.spec.processors
admitted-IsSupported_example =
    admitted-IsSupported specs plugins answering no_objects [] directory clients
      (λ p fp w. (w, none)) small (at_least_minor 11) (λ _. none) (λ e. e.detail) defaulted files
      (inl creation)

abbrev shop : Shop
shop = record { stored = fetched defaulted; writes = 0 }

reconcile_of_created_example :
    Returns (reconcile tidy libraries reconciler (λ i k. k) (namespaced_name defaulted) shop)
reconcile_of_created_example =
    reconcile_of_created tidy libraries (λ r. r) small-IsDocumented literal_IsRange reconciler
      (λ i k. k) checks (at_least_minor 11) (λ _. none) (λ k. k) small_resource defaulted files
      (namespaced_name defaulted) shop creation refl refl
