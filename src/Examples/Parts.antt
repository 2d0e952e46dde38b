-- ===== src/Examples/Parts.antt =====
-- The resource that the examples share: one connector, with a secret and a processor.
use conduit_operator.Prelude.{String, none, some, [], ◌∷◌}
use conduit_operator.Prelude.Result.{err}
use conduit_operator.Api.Condition.{Conditions, condition_true, condition_unknown}
use conduit_operator.Api.Types.{Conduit, ConduitConnector, ConduitProcessor, SettingsVar}
use conduit_operator.Config.{Reader}

abbrev pub plain : String → String → SettingsVar
plain name value = record { name = name; value = value; secret_ref = none; config_map_ref = none }

abbrev pub password : SettingsVar
password = record {
  name = "sasl.password";
  value = "";
  secret_ref = some (record { name = "kafka"; key = "pass-word" });
  config_map_ref = none;
}

abbrev pub filter : ConduitProcessor
filter = record {
  id = "filter";
  name = "filter";
  plugin = "my-filter";
  processor_url = "https://example.org/filter.wasm";
  condition = "";
  workers = 2;
  settings = plain "field" "key" ∷ [];
}

abbrev pub sink : ConduitConnector
sink = record {
  id = "";
  name = "sink";
  type = "destination";
  plugin = "conduitio/conduit-connector-http";
  plugin_name = "";
  plugin_pkg = "";
  plugin_version = "v1.0.0";
  settings = plain "servers" "localhost" ∷ password ∷ [];
  processors = filter ∷ [];
}

abbrev pub two_conditions : Conditions
two_conditions =
    record {
      type = "ConfigReady";
      status = condition_true;
      reason = "Created";
      message = "";
      last_transition_time = some 1;
    }
    ∷ record {
      type = "Ready";
      status = condition_unknown;
      reason = "";
      message = "";
      last_transition_time = some 1;
    }
    ∷ []

abbrev pub resource : Conduit
resource = record {
  meta = record {
    name = "pipe";
    namespace = "default";
    generation = 1;
    labels = [];
    annotations = [];
    finalizers = [];
    deletion_timestamp = none;
  };
  spec = record {
    id = "";
    name = "";
    description = "";
    image = "";
    running = none;
    version = "v0.13.5";
    registry = none;
    connectors = sink ∷ [];
    processors = filter ∷ [];
  };
  status = record { observed_generation = 0; conditions = two_conditions; updated_at = none };
}

-- With a schema registry.
abbrev pub with_registry : Conduit
with_registry = record resource {
  spec = record resource.spec {
    registry = some (record {
      url = "http://registry:8081";
      username = plain "" "";
      password = plain "" "";
      token = plain "" "";
    });
  };
}

-- A cluster without any object.
abbrev pub no_objects : Reader
no_objects = record {
  get_config_map = λ _ _. err "not found";
  get_secret = λ _ _. err "not found";
  show_ref = λ _. "";
}
