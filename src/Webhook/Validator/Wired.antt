-- ===== src/Webhook/Validator/Wired.antt =====
-- internal/webhook/v1alpha/conduit_webhook.go: `registryFactory`, and the validator of
-- pkg/conduit/conduit_validator.go as the webhook's `ValidatorService`.
use conduit_operator.Prelude.{String, ◌<>◌, Option, none, some, List}
use conduit_operator.Prelude.Dict.{Dict}
use conduit_operator.Prelude.Result.{Result, ok, err}
use conduit_operator.Api.Types.{ConduitProcessor, SchemaRegistry}
use conduit_operator.Config.{Reader}
use conduit_operator.Validator.FieldError.{FieldError, child, invalid_error, internal_error}
use conduit_operator.Validator.Http.{Http}
use conduit_operator.Validator.Listing.{PluginInfo}
use conduit_operator.Validator.Connector.{Specs, validate_connector}
use conduit_operator.Validator.Processor.{TempDir, Plugins, Store, validate_processor}
use conduit_operator.Webhook.Validator.{Service}

-- `schemaregistry.NewClient` at an address, and `standalone.NewRegistry` with its client, which puts
-- a registry into the store.
pub record Clients (R : Type 0) : Type 1 where
  pub Client : Type 0
  pub new_client : String → Result Client
  pub new_registry : Client → Store R → Store R × Result {0} Unit

-- The registry that is made is the one in the store, so its handle says only that it is there.
unfoldable pub registry_factory :
    {R : Type 0}
    → Clients R
    → SchemaRegistry
    → List String
    → Store R
    → Store R × (Option {0} Unit × Option FieldError)
registry_factory clients r fp w = elim (clients.new_client r.url) [
  | err e ↦ (w, (none, some (invalid_error fp r.url ("failed to create schema registry: " <> e))))
  | ok cl ↦
      let (w', made) = clients.new_registry cl w in
      elim made [
        | err e ↦ (
          w',
          (
            none,
            some (
                internal_error (child fp "schema") ("failed to create standalone registry: " <> e)),
          ),
        )
        | ok reg ↦ (w', (some tt, none))
      ]
]

-- `nil_registry` is what `ValidateProcessor` answers where the registry is nil.
abbrev pub validator :
    (P : Specs) (plugins : Plugins) (http : Http) (cl : Reader) (list : Dict PluginInfo)
    (F : TempDir) (clients : Clients plugins.Registry)
    (nil_registry : ConduitProcessor
      → List String
      → Store plugins.Registry
      → Store plugins.Registry × Option FieldError)
    → Service
validator P plugins http cl list F clients nil_registry = record {
  World = Store plugins.Registry;
  Registry = Unit {0};
  factory = registry_factory clients;
  validate_connector = λ c fp w. (w, validate_connector P http cl list c fp);
  validate_processor = λ p fp r w. elim r [
    | none ↦ nil_registry p fp w
    | some reg ↦ validate_processor plugins http F p fp w
  ];
}
