-- ===== src/Containers.antt =====
-- internal/controller/conduit_containers.go: the containers of the Conduit pod.
pub mod Init
use conduit_operator.Prelude.{
  ℕ, String, ◌<>◌, Bool, true, false, not, ◌&&◌, ◌==◌, Option, none, some, List, [], ◌∷◌, ◌++◌,
  if◌then◌else◌,
}
use conduit_operator.Prelude.Dict.{Dict}
use conduit_operator.Prelude.Result.{Result, ok, err}
use conduit_operator.Strings.Prefix.{has_prefix}
use conduit_operator.Strings.FilePath.{base}
use conduit_operator.Api.Types.{
  ConduitConnector, ConduitProcessor, conduit_init_container_name, conduit_init_image,
  conduit_processors_path, conduit_connectors_path, conduit_storage_volume_mount,
  conduit_volume_path, conduit_container_name, conduit_pipeline_volume_mount, conduit_pipeline_path,
}
use conduit_operator.Kube.{Container, EnvVar, VolumeMount, zero_container}
use conduit_operator.Semver.{Semver}
use conduit_operator.Flags.{Args, Call, returns, panics, for_version}
use conduit_operator.Builder.{
  CommandBuilder, ConnectorBuild, ProcessorBuild, new_builder, add_build, is_empty, render_script,
  builder_temp_path, connector_buildable, processor_buildable,
}

abbrev pub storage_mount : VolumeMount
storage_mount = record {
  name = conduit_storage_volume_mount;
  mount_path = conduit_volume_path;
  read_only = false;
}

-- A connector that is built from source.
abbrev pub is_standalone : ConduitConnector → Bool
is_standalone c = not (has_prefix c.plugin "builtin")

-- A processor whose WASM is downloaded.
abbrev pub is_downloaded : ConduitProcessor → Bool
is_downloaded p = not (has_prefix p.plugin "builtin") && not (p.processor_url == "")

unfoldable pub connector_build : ConduitConnector → ConnectorBuild
unfolding base
connector_build c = record {
  name = base c.plugin <> ("-" <> c.plugin_version);
  go_pkg = c.plugin_pkg;
  tmp_dir = builder_temp_path;
  target_dir = conduit_connectors_path;
  ldflags =
      "-ldflags \"-X 'github.com/" <> (c.plugin <> (".version=" <> (c.plugin_version <> "'\"")));
}

abbrev pub processor_build : ConduitProcessor → ProcessorBuild
processor_build p = record {
  name = p.plugin;
  proc_url = p.processor_url;
  target_dir = conduit_processors_path;
}

-- The loop over the connectors: the builder, and the processors collected so far.
unfoldable pub scan_connectors :
    List ConduitConnector
    → CommandBuilder ConnectorBuild
    → List ConduitProcessor
    → CommandBuilder ConnectorBuild × List ConduitProcessor
scan_connectors [] builder all_processors = (builder, all_processors)
scan_connectors (c ∷ cc) builder all_processors =
    scan_connectors cc (if is_standalone c then add_build (connector_build c) builder else builder)
      (all_processors ++ c.processors)

-- The loop over all processors.
unfoldable pub scan_processors :
    List ConduitProcessor → CommandBuilder ProcessorBuild → CommandBuilder ProcessorBuild
scan_processors [] builder = builder
scan_processors (p ∷ pp) builder =
    scan_processors pp (if is_downloaded p then add_build (processor_build p) builder else builder)

-- The shell command of an init container.
abbrev pub init_container : String → List String → Container
init_container name args = record zero_container {
  name = name;
  image = conduit_init_image;
  image_pull_policy = "IfNotPresent";
  args = args;
  volume_mounts = storage_mount ∷ [];
}

-- The containers for the two builders.
unfoldable pub init_containers :
    CommandBuilder ConnectorBuild → CommandBuilder ProcessorBuild → List Container
init_containers builder p_builder =
    (init_container conduit_init_container_name (
        "sh"
        ∷ "-xe"
        ∷ "-c"
        ∷ ("mkdir -p " <> (conduit_processors_path <> (" " <> conduit_connectors_path)))
        ∷ [])
      ∷ [])
    ++ ((if not (is_empty builder)
          then init_container (conduit_init_container_name <> "-connectors")
              ("sh" ∷ "-xe" ∷ "-c" ∷ render_script builder ∷ [])
            ∷ []
          else [])
        ++ (if not (is_empty p_builder)
            then init_container (conduit_init_container_name <> "-processors")
                ("sh" ∷ "-xe" ∷ "-c" ∷ render_script p_builder ∷ [])
              ∷ []
            else []))

unfoldable pub conduit_init_containers :
    List ConduitConnector → List ConduitProcessor → List Container
conduit_init_containers cc cp =
    let (builder, all_processors) = scan_connectors cc new_builder cp in
    init_containers builder (scan_processors all_processors new_builder)

module _ (S : Semver) where
  -- `rules` is the order of the range in `ForVersion`.
  unfoldable pub conduit_runtime_container :
      Dict String → String → String → List EnvVar → Args → Call Container
  conduit_runtime_container rules image version env_vars flags =
      elim (for_version S rules flags version) [
        | panics ↦ panics
        | returns (err e) ↦ returns (err e)
        | returns (ok args) ↦ returns (
            ok (record {
              name = conduit_container_name;
              image = image <> (":" <> version);
              image_pull_policy = "Always";
              command = "/app/conduit" ∷ [];
              args = args;
              ports =
                  record { name = "http"; container_port = 8080; protocol = "TCP" }
                  ∷ record { name = "grpc"; container_port = 8084; protocol = "TCP" }
                  ∷ [];
              readiness_probe = some (record {
                path = "/healthz";
                scheme = "HTTP";
                port = "http";
                initial_delay_seconds = 5;
                timeout_seconds = 1;
                period_seconds = 10;
                success_threshold = 1;
                failure_threshold = 3;
              });
              volume_mounts =
                  storage_mount
                  ∷ record {
                    name = conduit_pipeline_volume_mount;
                    mount_path = conduit_pipeline_path;
                    read_only = true;
                  }
                  ∷ [];
              env = env_vars;
            }))
      ]
