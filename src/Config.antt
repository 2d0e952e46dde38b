-- ===== src/Config.antt =====
-- internal/controller/conduit_config.go: the pipeline configuration, the environment variables that
-- carry its secrets, and the schema registry's settings.
--
-- A map is a `Dict`, in the order in which its keys were set. The cluster (`client.Client`) and
-- the YAML library are the fields of `Reader` and an argument `marshal`.
pub mod Settings
pub mod Building
pub mod Registry
use Prim.Native.Char.{Char, code}
use conduit_operator.Prelude.{
  String, ◌<>◌, ℕ, Bool, true, false, ◌&&◌, ◌||◌, ◌==◌, Option, none, some, List, [], ◌∷◌, ◌++◌,
  leb, nat_eq, if◌then◌else◌,
}
use conduit_operator.Prelude.Dict.{Dict, lookup, insert}
use conduit_operator.Prelude.Result.{Result, ok, err, ◌>>=◌, wrap}
use conduit_operator.Strings.Case.{to_upper, of_code}
use conduit_operator.Strings.Quote.{quote}
use conduit_operator.Api.Types.{
  Conduit, ConduitConnector, ConduitProcessor, ConduitSpec, SettingsVar, SecretKeySelector,
  GlobalConfigMapRef,
}
use conduit_operator.Kube.{EnvVar, ConfigMap, Secret}
use conduit_operator.Flags.{Call, returns, panics}

-- What the functions read of the cluster: `Get` at a namespace and a name. `show_ref` is what `%v`
-- prints of a reference.
pub record Reader : Type 0 where
  pub get_config_map : String → String → Result ConfigMap
  pub get_secret : String → String → Result Secret
  pub show_ref : GlobalConfigMapRef → String

-- The class `[[:alnum:]_]` of the regular expression.
abbrev pub is_env_char : Char → Bool
is_env_char c =
    (leb b'0' (code c) && leb (code c) b'9')
    || ((leb b'A' (code c) && leb (code c) b'Z')
        || ((leb b'a' (code c) && leb (code c) b'z') || nat_eq (code c) b'_'))

unfoldable pub replace_others : String → String
unfolding of_code
replace_others String.[] = ""
replace_others (String.◌∷◌ c s) =
    let rest = replace_others s in
    if is_env_char c then String.◌∷◌ c rest else String.◌∷◌ (of_code b'_') rest

unfoldable pub env_var_name : String → String
unfolding to_upper replace_others
env_var_name s = replace_others (to_upper s)

-- One round of the loop over a connector's settings.
unfoldable pub env_var : SettingsVar → List EnvVar
unfolding env_var_name
env_var v = elim v.secret_ref [
  | none ↦ []
  | some ref ↦ record { name = env_var_name ref.key; value_from = some ref } ∷ []
]

unfoldable pub settings_env_vars : List SettingsVar → List EnvVar
settings_env_vars [] = []
settings_env_vars (v ∷ vs) = env_var v ++ settings_env_vars vs

unfoldable pub connectors_env_vars : List ConduitConnector → List EnvVar
connectors_env_vars [] = []
connectors_env_vars (cc ∷ ccs) = settings_env_vars cc.settings ++ connectors_env_vars ccs

unfoldable pub env_vars : Conduit → List EnvVar
env_vars c = connectors_env_vars c.spec.connectors

-- The loop over the keys of a secret.
unfoldable pub secret_env_vars : String → Dict String → List EnvVar
secret_env_vars name [] = []
secret_env_vars name ((k, v) ∷ content) =
    record { name = k; value_from = some (record { name = name; key = k }) }
    ∷ secret_env_vars name content

unfoldable pub env_vars_from_secret : Secret → List EnvVar
env_vars_from_secret secret = secret_env_vars secret.name secret.content

-- `fmt.Sprintf("${%s}", name)`.
abbrev pub placeholder : String → String
placeholder name = "${" <> (name <> "}")

unfoldable pub config_map_value : Reader → GlobalConfigMapRef → Result String
config_map_value cl ref =
    wrap (λ e. "error fetching configmap " <> (ref.namespace <> ("/" <> (ref.name <> (": " <> e)))))
      (cl.get_config_map ref.namespace ref.name)
    >>= λ config_map. elim (lookup ref.key config_map.content) [
      | some val ↦ ok val
      | none ↦
          err
            ("configmap " <> (ref.namespace <> ("/" <> (ref.name <> (" has no key " <> ref.key)))))
    ]

-- The `switch` of the loop: the value that a setting gets.
unfoldable pub setting_value : Reader → SettingsVar → Result String
setting_value cl v =
    let from_config_map : Result String = elim v.config_map_ref [
      | none ↦ ok v.value
      | some ref ↦
          wrap (λ _. "failed getting value for " <> cl.show_ref ref) (config_map_value cl ref)
    ] in
    elim v.secret_ref [
      | none ↦ from_config_map
      | some ref ↦
          if v.value == "" then ok (placeholder (env_var_name ref.key)) else from_config_map
    ]

-- The loop: the settings so far are `m`.
unfoldable pub scan_settings : Reader → List SettingsVar → Dict String → Result (Dict String)
scan_settings cl [] m = ok m
scan_settings cl (v ∷ vs) m =
    setting_value cl v >>= λ val. scan_settings cl vs (insert v.name val m)

abbrev pub settings_with_env_vars : Reader → List SettingsVar → Result (Dict String)
settings_with_env_vars cl s = scan_settings cl s []

-- The records of conduit's `pkg/provisioning/config/yaml/v2`: the fields that are set.
pub record Processor : Type 0 where
  pub id : String
  pub plugin : String
  pub condition : String
  pub workers : ℕ
  pub settings : Dict String

pub record Connector : Type 0 where
  pub id : String
  pub name : String
  pub plugin : String
  pub type : String
  pub settings : Dict String
  pub processors : List Processor

pub record Pipeline : Type 0 where
  pub id : String
  pub name : String
  pub description : String
  pub status : String
  pub connectors : List Connector
  pub processors : List Processor

pub record Configuration : Type 0 where
  pub version : String
  pub pipelines : List Pipeline

unfoldable pub processor_config : Reader → ConduitProcessor → Result Processor
processor_config cl p =
    wrap (λ e. "failed getting settings for processor " <> (p.name <> (": " <> e)))
      (settings_with_env_vars cl p.settings)
    >>= λ settings. ok (record {
      id = p.id;
      plugin = p.plugin;
      condition = p.condition;
      workers = p.workers;
      settings = settings;
    })

-- The two loops that build the processors.
unfoldable pub processor_configs : Reader → List ConduitProcessor → Result (List Processor)
processor_configs cl [] = ok []
processor_configs cl (p ∷ ps) =
    wrap (λ e. "failed building processor: " <> e) (processor_config cl p) >>= λ proc_cfg.
    (processor_configs cl ps >>= λ rest. ok (proc_cfg ∷ rest))

unfoldable pub connector_config : Reader → ConduitConnector → Result Connector
connector_config cl c = processor_configs cl c.processors >>= λ processors.
    (wrap (λ e. "failed getting settings for connector " <> (c.name <> (": " <> e)))
        (settings_with_env_vars cl c.settings)
      >>= λ settings. ok (record {
        id = c.id;
        name = c.name;
        plugin = c.plugin_name;
        type = c.type;
        settings = settings;
        processors = processors;
      }))

unfoldable pub connector_configs : Reader → List ConduitConnector → Result (List Connector)
connector_configs cl [] = ok []
connector_configs cl (c ∷ cc) =
    wrap (λ e. "failed building connector: " <> e) (connector_config cl c) >>= λ cfg.
    (connector_configs cl cc >>= λ rest. ok (cfg ∷ rest))

abbrev pub pipeline_config_version : String
pipeline_config_version = "2.2"

-- `PipelineConfigYAML` up to `yaml.Marshal`, with the value of `Running`.
unfoldable pub pipeline_config : Reader → Bool → ConduitSpec → Result Configuration
pipeline_config cl running spec = connector_configs cl spec.connectors >>= λ connectors.
    (processor_configs cl spec.processors >>= λ processors. ok (record {
      version = pipeline_config_version;
      pipelines =
          record {
            id = spec.id;
            name = spec.name;
            description = spec.description;
            status = if running then "running" else "stopped";
            connectors = connectors;
            processors = processors;
          }
          ∷ [];
    }))

-- A nil `Running` is dereferenced.
unfoldable pub pipeline_config_yaml :
    Reader → (marshal : Configuration → Result String) → Conduit → Call String
pipeline_config_yaml cl marshal conduit = elim conduit.spec.running [
  | none ↦ panics
  | some running ↦ returns (pipeline_config cl running conduit.spec >>= marshal)
]
