-- ===== src/Examples/Validation.antt =====
-- The theorems on the validations at a service and a server that answer one thing.
use conduit_operator.Prelude.{
  ℕ, suc, String, Option, subst, ◌<>◌, ◌≡◌, ◌≢◌, ◌↔◌, refl, true, false, none, some, List, [], ◌∷◌,
}
use conduit_operator.Prelude.Lists.{All}
use conduit_operator.Prelude.Dict.{Dict, insert}
use conduit_operator.Prelude.Result.{Result, ok, err}
use conduit_operator.Strings.Case.{to_lower}
use conduit_operator.Strings.Split.{has_slash}
use conduit_operator.Semver.{at_least_minor}
use conduit_operator.Validator.Http.{Http}
use conduit_operator.Validator.Listing.{
  PluginInfo, ConnectorInfo, connector_list, add_connectors, add_connector, add_parts,
  new_validator, filter_connector,
}
use conduit_operator.Validator.Listed.{
  IsAllowed, new_validator-IsAllowed, filter_connector-standalone,
}
use conduit_operator.Validator.Connector.{Specs}
use conduit_operator.Validator.Processor.{TempDir, Plugins, registered, validate_processor}
use conduit_operator.Validator.TempFiles.{CanClean, validate_processor-files}
use conduit_operator.Webhook.Object.{conduit}
use conduit_operator.Webhook.Validator.{
  Service, admitted, validate_create, validate_update, validate_conduit_version, validate_registry,
}
use conduit_operator.Webhook.Validator.Agreement.{create-update, registry-required}
use conduit_operator.Examples.Parts.{resource, with_registry, filter}
use conduit_operator.Examples.Versions.{small}

abbrev pub answering : Http
answering = record {
  new_request = λ url. ok url;
  do_request = λ req. ok (record { status_code = 200; body = ok "[]" });
  show_status = λ n. "200";
}

abbrev pub connectors : String → Result (List ConnectorInfo)
connectors body = ok (
    record {
      name = "ConduitIO-Labs/conduit-connector-http";
      url = "";
      releases = record { name = "v0.1.0"; latest = true } ∷ [];
    }
    ∷ record { name = "someone/else"; url = ""; releases = [] }
    ∷ [])

abbrev http_plugin : PluginInfo
http_plugin = record {
  name = "conduit-connector-http";
  org = "conduitio-labs";
  url = "";
  version = "v0.1.0";
}

abbrev listed : Dict PluginInfo
listed = ("conduit-connector-http", http_plugin) ∷ []

new_validator-IsAllowed_example : All IsAllowed (new_validator answering connectors)
new_validator-IsAllowed_example = new_validator-IsAllowed answering connectors

new_validator_test : new_validator answering connectors ≡ listed
unfolding new_validator connector_list add_connectors add_connector add_parts insert
new_validator_test = refl

slash_free : has_slash (to_lower "kafka-other") ≡ false
unfolding to_lower
slash_free = refl

filter_connector-standalone_example :
    filter_connector listed ("standalone:" <> "kafka-other") ≡ some http_plugin
filter_connector-standalone_example =
    filter_connector-standalone "conduit-connector-http" http_plugin [] "kafka-other" slash_free

-- `io.Copy` fails where the body cannot be read.
abbrev pub copy_error : Result String → Option String
copy_error (ok content) = none
copy_error (err e) = some e

abbrev pub directory : TempDir
directory = record {
  create = λ files. ok "/tmp/proc-1.wasm";
  copy = λ file body. copy_error body;
  can_remove = λ file. true;
}

abbrev pub plugins : Plugins
plugins = record { Registry = List String; register = λ r file. (file ∷ r, registered) }

ok-injective : {A : Type 0} {a b : A} → ok a ≡ ok b → a ≡ b
ok-injective h = cc h

directory-CanClean : (url : String) → CanClean answering directory url
directory-CanClean url = record {
  copies = λ req resp file h h'. subst (λ x. copy_error x.body ≡ none) (ok-injective h') refl;
  removes = λ file. refl;
}

validate_processor-files_example :
    (validate_processor plugins answering directory filter
      ("spec" ∷ [])
      (record { files = "/tmp/other" ∷ []; registry = [] })).0.files
    ≡ "/tmp/other" ∷ []
validate_processor-files_example =
    validate_processor-files plugins answering directory filter ("spec" ∷ [])
      (record { files = "/tmp/other" ∷ []; registry = [] })
      (directory-CanClean filter.processor_url)

abbrev service : Service
service = record {
  World = ℕ;
  Registry = Unit;
  factory = λ r fp w. (w, (some tt, none));
  validate_connector = λ c fp w. (suc w, none);
  validate_processor = λ p fp r w. (suc w, none);
}

create-update_example :
    ((validate_create service small (at_least_minor 11) (λ _. none) (conduit with_registry) 0).1
        ≡ admitted
      ↔ ((validate_update service (λ e. e.detail) (conduit with_registry) 0).1 ≡ admitted)
        × (validate_conduit_version small (at_least_minor 11) with_registry.spec.version ≡ none)
        × (validate_registry (λ _. none) with_registry.spec.registry ≡ none))
    × ((validate_update service (λ e. e.detail) (conduit with_registry) 0).1 ≡ admitted
        → (validate_create service small
            (at_least_minor 11)
            (λ _. none)
            (conduit with_registry)
            0).0
          ≡ (validate_update service (λ e. e.detail) (conduit with_registry) 0).0)
create-update_example =
    create-update service small (at_least_minor 11) (λ _. none) (λ e. e.detail) with_registry 0

registry-required_example :
    ((validate_create service small (at_least_minor 11) (λ _. none) (conduit resource) 0).1
      ≢ admitted)
    × ((validate_update service (λ e. e.detail) (conduit resource) 0).1 ≢ admitted)
registry-required_example =
    registry-required service small (at_least_minor 11) (λ _. none) (λ e. e.detail) resource 0 refl

abbrev lenient : Specs
lenient = record {
  Spec = String;
  yaml_specification = λ body version. body;
  validate_source = λ spec settings. none;
  validate_destination = λ spec settings. none;
}
