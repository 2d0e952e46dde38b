-- ===== src/Config/Building.antt =====
-- internal/controller/conduit_config.go: the pipeline configuration beside the resource.
use conduit_operator.Prelude.{
  String, ◌≡◌, ◌≢◌, ◌↔◌, ℕ, refl, Bool, none, List, [], ◌∷◌, if◌then◌else◌, Option-cases, inl, inr,
}
use conduit_operator.Prelude.Lists.{All}
use conduit_operator.Prelude.Result.{Result, ok}
use conduit_operator.Api.Types.{Conduit, ConduitSpec, ConduitConnector, ConduitProcessor}
use conduit_operator.Flags.{panics}
use conduit_operator.Config.{
  Reader, Processor, Connector, Pipeline, Configuration, settings_with_env_vars, processor_config,
  processor_configs, connector_config, connector_configs, pipeline_config, pipeline_config_yaml,
}
use conduit_operator.Config.Settings.{Resolves, settings_with_env_vars-ok}
use conduit_operator.Webhook.Defaulter.{default_conduit, default_spec, default_running}

-- Two lists agree item by item.
abbrev pub Pairwise {ℓ κ} : {A : Type ℓ} {B : Type κ} → (A → B → Type 0) → List A → List B → Type 0
Pairwise R [] [] = Unit
Pairwise R [] (y ∷ ys) = ⊥
Pairwise R (x ∷ xs) [] = ⊥
Pairwise R (x ∷ xs) (y ∷ ys) = R x y × Pairwise R xs ys

pub record IsProcessorOf (cl : Reader) (p : ConduitProcessor) (cfg : Processor) : Type 0 where
  pub id : cfg.id ≡ p.id
  pub plugin : cfg.plugin ≡ p.plugin
  pub condition : cfg.condition ≡ p.condition
  pub workers : cfg.workers ≡ p.workers
  pub settings : settings_with_env_vars cl p.settings ≡ ok cfg.settings

pub record IsConnectorOf (cl : Reader) (c : ConduitConnector) (cfg : Connector) : Type 0 where
  pub id : cfg.id ≡ c.id
  pub name : cfg.name ≡ c.name
  pub plugin : cfg.plugin ≡ c.plugin_name
  pub type : cfg.type ≡ c.type
  pub settings : settings_with_env_vars cl c.settings ≡ ok cfg.settings
  pub processors : Pairwise (IsProcessorOf cl) c.processors cfg.processors

pub record IsPipelineOf (cl : Reader) (running : Bool) (spec : ConduitSpec) (p : Pipeline)
    : Type 0 where
  pub id : p.id ≡ spec.id
  pub name : p.name ≡ spec.name
  pub description : p.description ≡ spec.description
  pub status : p.status ≡ (if running then "running" else "stopped")
  pub connectors : Pairwise (IsConnectorOf cl) spec.connectors p.connectors
  pub processors : Pairwise (IsProcessorOf cl) spec.processors p.processors

-- Every setting of the processors resolves to a value.
abbrev pub ProcessorsResolve : Reader → List ConduitProcessor → Type 0
ProcessorsResolve cl = All (λ p. All (Resolves cl) p.settings)

abbrev pub ConnectorsResolve : Reader → List ConduitConnector → Type 0
ConnectorsResolve cl = All (λ c. All (Resolves cl) c.settings × ProcessorsResolve cl c.processors)

processor_configs_lem :
    (cl : Reader) (ps : List ConduitProcessor)
    → ProcessorsResolve cl ps
    → (cfgs : List Processor) × (processor_configs cl ps ≡ ok cfgs)
      × Pairwise (IsProcessorOf cl) ps cfgs
unfolding processor_configs processor_config
processor_configs_lem cl [] h = ([], refl, tt)
processor_configs_lem cl (p ∷ ps) (h, hs) =
    let (m, e) = (settings_with_env_vars-ok cl p.settings).0 h in
    let (cfgs, f, g) = processor_configs_lem cl ps hs in
    (
      record {
        id = p.id;
        plugin = p.plugin;
        condition = p.condition;
        workers = p.workers;
        settings = m;
      }
          ∷ cfgs,
      rw (e, f),
      (record { id = refl; plugin = refl; condition = refl; workers = refl; settings = e }, g),
    )

connector_configs_lem :
    (cl : Reader) (cs : List ConduitConnector)
    → ConnectorsResolve cl cs
    → (cfgs : List Connector) × (connector_configs cl cs ≡ ok cfgs)
      × Pairwise (IsConnectorOf cl) cs cfgs
unfolding connector_configs connector_config
connector_configs_lem cl [] h = ([], refl, tt)
connector_configs_lem cl (c ∷ cs) ((h, hp), hs) =
    let (m, e) = (settings_with_env_vars-ok cl c.settings).0 h in
    let (ps, d, p) = processor_configs_lem cl c.processors hp in
    let (cfgs, f, g) = connector_configs_lem cl cs hs in
    (
      record {
        id = c.id;
        name = c.name;
        plugin = c.plugin_name;
        type = c.type;
        settings = m;
        processors = ps;
      }
          ∷ cfgs,
      rw (d, e, f),
      (
        record { id = refl; name = refl; plugin = refl; type = refl; settings = e; processors = p },
        g,
      ),
    )

-- Where every setting of the connectors, of their processors and of the pipeline's processors
-- resolves to a value, the configuration is built: version 2.2 and one pipeline with the identity
-- of the resource and the status that Running asks for, and its connectors and processors are
-- those of the resource, one for one and in order, each with its settings.
pub pipeline_config_lem :
    (cl : Reader) (running : Bool) (spec : ConduitSpec)
    → ConnectorsResolve cl spec.connectors
    → ProcessorsResolve cl spec.processors
    → (p : Pipeline) × (pipeline_config cl running spec
        ≡ ok (record { version = "2.2"; pipelines = p ∷ [] }))
      × IsPipelineOf cl running spec p
unfolding pipeline_config
pipeline_config_lem cl running spec hc hp =
    let (cs, e, c) = connector_configs_lem cl spec.connectors hc in
    let (ps, f, p) = processor_configs_lem cl spec.processors hp in
    (
      record {
        id = spec.id;
        name = spec.name;
        description = spec.description;
        status = if running then "running" else "stopped";
        connectors = cs;
        processors = ps;
      },
      rw (e, f),
      record {
        id = refl;
        name = refl;
        description = refl;
        status = refl;
        connectors = c;
        processors = p;
      },
    )

-- PipelineConfigYAML panics exactly where Running is nil, and it never does on a resource that the
-- webhook has given its defaults.
pub pipeline_config_yaml-panics :
    (cl : Reader) (marshal : Configuration → Result String) (c : Conduit)
    → (pipeline_config_yaml cl marshal c ≡ panics ↔ c.spec.running ≡ none)
      × ((now : ℕ → ℕ) → pipeline_config_yaml cl marshal (default_conduit now c) ≢ panics)
unfolding pipeline_config_yaml default_conduit default_spec default_running
pipeline_config_yaml-panics cl marshal c = elim (Option-cases c.spec.running) [
  | inl e ↦ ((λ _. e, λ _. rw e), λ now. rw e (λ h. cc h))
  | inr (r, e) ↦ (rw e (λ h. cc h, λ h. cc h), λ now. rw e (λ h. cc h))
]
