-- ===== src/Testutil.antt =====
-- internal/testutil/conduit.go: the resources of the repository's tests.
use conduit_operator.Prelude.{String, true, none, some, List, [], ◌∷◌}
use conduit_operator.Api.Types.{
  Conduit, ConduitConnector, ConduitProcessor, ConduitStatus, ObjectMeta, SchemaRegistry,
  SettingsVar,
}

-- A variable that is left out has the zero value in each field.
abbrev no_var : SettingsVar
no_var = record { name = ""; value = ""; secret_ref = none; config_map_ref = none }

abbrev value_var : String → String → SettingsVar
value_var name value = record no_var { name = name; value = value }

abbrev secret_var : String → String → String → SettingsVar
secret_var name secret key = record no_var {
  name = name;
  secret_ref = some (record { name = secret; key = key });
}

-- What the five resources share.
abbrev sample_meta : ObjectMeta
sample_meta = record {
  name = "sample";
  namespace = "sample";
  generation = 0;
  labels = [];
  annotations = [];
  finalizers = [];
  deletion_timestamp = none;
}

abbrev no_status : ConduitStatus
no_status = record { observed_generation = 0; conditions = []; updated_at = none }

abbrev apicurio : SchemaRegistry
apicurio = record {
  url = "http://apicurio:8080/apis/ccompat/v7";
  username = no_var;
  password = no_var;
  token = no_var;
}

abbrev source_connector : ConduitConnector
source_connector = record {
  id = "";
  name = "source-connector";
  type = "source";
  plugin = "builtin:generator";
  plugin_name = "builtin:generator";
  plugin_pkg = "";
  plugin_version = "latest";
  settings = value_var "servers" "127.0.0.1" ∷ value_var "topics" "input-topic" ∷ [];
  processors = [];
}

abbrev destination_connector : ConduitConnector
destination_connector = record {
  id = "";
  name = "destination-connector";
  type = "destination";
  plugin = "builtin:log";
  plugin_name = "builtin:log";
  plugin_pkg = "";
  plugin_version = "latest";
  settings = value_var "servers" "127.0.0.1" ∷ value_var "topic" "output-topic" ∷ [];
  processors = [];
}

abbrev proc1 : String → ConduitProcessor
proc1 plugin = record {
  id = "proc1";
  name = "proc1";
  plugin = plugin;
  processor_url = "http://127.0.0.1:8090/api/files/processors/RECORD_ID/FILENAME";
  condition = "{{ eq .Metadata.key \"pipeline\" }}";
  workers = 2;
  settings =
      secret_var "setting01" "setting01-secret-name" "setting01-%p-key"
      ∷ value_var "setting02" "setting02-val"
      ∷ [];
}

abbrev with_parts : List ConduitConnector → List ConduitProcessor → Conduit
with_parts connectors processors = record {
  meta = sample_meta;
  spec = record {
    id = "";
    name = "my-pipeline";
    description = "my-description";
    image = "";
    running = some true;
    version = "v0.13.2";
    registry = some apicurio;
    connectors = connectors;
    processors = processors;
  };
  status = no_status;
}

abbrev pub setup_sample_conduit : Conduit
setup_sample_conduit =
    with_parts (source_connector ∷ destination_connector ∷ []) (proc1 "builtin:base64.encode" ∷ [])

-- The plugins' names and versions are left to the defaults.
abbrev pub setup_bad_name_conduit : Conduit
setup_bad_name_conduit =
    with_parts
      (record source_connector { plugin = "generator"; plugin_name = ""; plugin_version = "" }
        ∷ record destination_connector { plugin_name = ""; plugin_version = "" }
        ∷ [])
      []

abbrev pub setup_bad_validation_conduit : Conduit
setup_bad_validation_conduit =
    let c =
      with_parts
        (record source_connector {
          id = "source-connector";
          plugin = "builtin:kafka";
          plugin_name = "builtin:kafka";
          settings = value_var "servers" "127.0.0.1" ∷ [];
        }
          ∷ record destination_connector {
            plugin = "builtin:kafka";
            plugin_name = "";
            plugin_version = "";
          }
          ∷ [])
        [] in
    record c { spec = record c.spec { id = "my-pipeline"; image = "ghcr.io/conduitio/conduit" } }

abbrev pub setup_secret_conduit : Conduit
setup_secret_conduit =
    with_parts
      (record source_connector {
        settings =
            value_var "servers" "127.0.0.1"
            ∷ value_var "topics" "input-topic"
            ∷ secret_var "saslUsername" "objref1" "key1"
            ∷ [];
      }
        ∷ destination_connector
        ∷ [])
      []

abbrev pub setup_source_proc_conduit : Conduit
setup_source_proc_conduit =
    with_parts
      (record source_connector { processors = proc1 "standalone:foo.encode" ∷ [] }
        ∷ destination_connector
        ∷ [])
      []
