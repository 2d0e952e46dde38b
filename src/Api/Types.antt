-- ===== src/Api/Types.antt =====
-- api/v1alpha/conduit_types.go: the Conduit resource and the constants of the package.
--
-- Of `metav1.ObjectMeta` the model has the fields that the operator reads or writes. A pointer is an
-- `Option`; an `int` is a natural number.
use conduit_operator.Prelude.{ℕ, String, ◌<>◌, Bool, Option, List, [], ◌∷◌}
use conduit_operator.Prelude.Dict.{Dict}
use conduit_operator.Api.Condition.{ConditionType, Conditions}
use conduit_operator.Api.ConditionSet.{ConditionSet, new_condition_set}

abbrev pub condition_conduit_ready : ConditionType
condition_conduit_ready = "Ready"

abbrev pub condition_conduit_config_ready : ConditionType
condition_conduit_config_ready = "ConfigReady"

abbrev pub condition_conduit_secret_ready : ConditionType
condition_conduit_secret_ready = "SecretReady"

abbrev pub condition_conduit_volume_ready : ConditionType
condition_conduit_volume_ready = "VolumeBound"

abbrev pub condition_conduit_deployment_running : ConditionType
condition_conduit_deployment_running = "DeploymentRunning"

abbrev pub condition_conduit_service_ready : ConditionType
condition_conduit_service_ready = "ServiceReady"

abbrev pub conduit_finalizer : String
conduit_finalizer = "finalizers.operator.conduit.io"

abbrev pub errored_reason : String
errored_reason = "Error"

abbrev pub created_reason : String
created_reason = "Created"

abbrev pub updated_reason : String
updated_reason = "Updated"

abbrev pub running_reason : String
running_reason = "Running"

abbrev pub stopped_reason : String
stopped_reason = "Stopped"

abbrev pub pending_reason : String
pending_reason = "Pending"

abbrev pub vol_bound_reason : String
vol_bound_reason = "VolumeBound"

abbrev pub deleted_reason : String
deleted_reason = "Deleted"

abbrev pub degraded_reason : String
degraded_reason = "Degraded"

abbrev pub conduit_conditions : ConditionSet
conduit_conditions = new_condition_set condition_conduit_ready (
    condition_conduit_config_ready ∷ condition_conduit_secret_ready ∷ condition_conduit_volume_ready
    ∷ condition_conduit_deployment_running ∷ condition_conduit_service_ready ∷ [])

abbrev pub conduit_version : String
conduit_version = "v0.13.6"

abbrev pub conduit_image : String
conduit_image = "ghcr.io/conduitio/conduit"

abbrev pub conduit_container_name : String
conduit_container_name = "conduit-server"

abbrev pub conduit_pipeline_path : String
conduit_pipeline_path = "/conduit.pipelines"

abbrev pub conduit_volume_path : String
conduit_volume_path = "/conduit.storage"

abbrev pub conduit_db_path : String
conduit_db_path = "/conduit.storage/db"

abbrev pub conduit_connectors_path : String
conduit_connectors_path = "/conduit.storage/connectors"

abbrev pub conduit_processors_path : String
conduit_processors_path = "/conduit.storage/processors"

abbrev pub conduit_storage_volume_mount : String
conduit_storage_volume_mount = "conduit-storage"

abbrev pub conduit_pipeline_volume_mount : String
conduit_pipeline_volume_mount = "conduit-pipelines"

abbrev pub conduit_init_image : String
conduit_init_image = "golang:1.23-alpine"

abbrev pub conduit_init_container_name : String
conduit_init_container_name = "conduit-init"

abbrev pub conduit_log_format_json : String
conduit_log_format_json = "json"

abbrev pub conduit_log_format_text : String
conduit_log_format_text = "cli"

-- `path.Join(ConduitPipelinePath, "pipeline.yaml")`.
abbrev pub conduit_pipeline_file : String
conduit_pipeline_file = "/conduit.pipelines/pipeline.yaml"

abbrev pub conduit_earliest_available : String
conduit_earliest_available = "v0.11.0"

pub record GlobalConfigMapRef : Type 0 where
  pub namespace : String
  pub name : String
  pub key : String

-- `corev1.SecretKeySelector`: the name of a secret and a key in it.
pub record SecretKeySelector : Type 0 where
  pub name : String
  pub key : String

pub record SettingsVar : Type 0 where
  pub name : String
  pub value : String
  pub secret_ref : Option SecretKeySelector
  pub config_map_ref : Option GlobalConfigMapRef

pub record ConduitProcessor : Type 0 where
  pub id : String
  pub name : String
  pub plugin : String
  pub processor_url : String
  pub condition : String
  pub workers : ℕ
  pub settings : List SettingsVar

pub record ConduitConnector : Type 0 where
  pub id : String
  pub name : String
  pub type : String
  pub plugin : String
  pub plugin_name : String
  pub plugin_pkg : String
  pub plugin_version : String
  pub settings : List SettingsVar
  pub processors : List ConduitProcessor

pub record SchemaRegistry : Type 0 where
  pub url : String
  pub username : SettingsVar
  pub password : SettingsVar
  pub token : SettingsVar

pub record ConduitSpec : Type 0 where
  pub id : String
  pub name : String
  pub description : String
  pub image : String
  pub running : Option Bool
  pub version : String
  pub registry : Option SchemaRegistry
  pub connectors : List ConduitConnector
  pub processors : List ConduitProcessor

pub record ConduitStatus : Type 0 where
  pub observed_generation : ℕ
  pub conditions : Conditions
  pub updated_at : Option ℕ

pub record ObjectMeta : Type 0 where
  pub name : String
  pub namespace : String
  pub generation : ℕ
  pub labels : Dict String
  pub annotations : Dict String
  pub finalizers : List String
  pub deletion_timestamp : Option ℕ

pub record Conduit : Type 0 where
  pub meta : ObjectMeta
  pub spec : ConduitSpec
  pub status : ConduitStatus

-- `types.NamespacedName`.
pub record NamespacedName : Type 0 where
  pub namespace : String
  pub name : String

unfoldable pub namespaced_name : Conduit → NamespacedName
namespaced_name r = record { name = "conduit-server-" <> r.meta.name; namespace = r.meta.namespace }

pub record ConduitInstanceMetadata : Type 0 where
  pub pod_annotations : Dict String
  pub labels : Dict String
  pub log_format : String

abbrev pub new_conduit_instance_metadata : ConduitInstanceMetadata
new_conduit_instance_metadata = record {
  pod_annotations = [];
  labels = [];
  log_format = conduit_log_format_json;
}
