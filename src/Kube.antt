-- ===== src/Kube.antt =====
-- The objects of the Kubernetes API that the operator builds (k8s.io/api): the fields that it sets
-- or reads. They are types of another repository.
use conduit_operator.Prelude.{ℕ, String, Bool, Option, List, none, []}
use conduit_operator.Prelude.Dict.{Dict}
use conduit_operator.Api.Types.{SecretKeySelector}

-- `ValueFrom` holds a reference to a secret's key, or nothing.
pub record EnvVar : Type 0 where
  pub name : String
  pub value_from : Option SecretKeySelector

pub record VolumeMount : Type 0 where
  pub name : String
  pub mount_path : String
  pub read_only : Bool

pub record ContainerPort : Type 0 where
  pub name : String
  pub container_port : ℕ
  pub protocol : String

-- An HTTP probe.
pub record Probe : Type 0 where
  pub path : String
  pub scheme : String
  pub port : String
  pub initial_delay_seconds : ℕ
  pub timeout_seconds : ℕ
  pub period_seconds : ℕ
  pub success_threshold : ℕ
  pub failure_threshold : ℕ

pub record Container : Type 0 where
  pub name : String
  pub image : String
  pub image_pull_policy : String
  pub command : List String
  pub args : List String
  pub ports : List ContainerPort
  pub readiness_probe : Option Probe
  pub volume_mounts : List VolumeMount
  pub env : List EnvVar

-- The Go zero value.
abbrev pub zero_container : Container
zero_container = record {
  name = "";
  image = "";
  image_pull_policy = "";
  command = [];
  args = [];
  ports = [];
  readiness_probe = none;
  volume_mounts = [];
  env = [];
}

-- The sources of a volume that the operator uses.
pub data VolumeSource : Type 0 where
  persistent_volume_claim : String → VolumeSource
  config_map : String → ℕ → VolumeSource

pub record Volume : Type 0 where
  pub name : String
  pub source : VolumeSource

pub record PersistentVolumeClaim : Type 0 where
  pub name : String
  pub namespace : String
  pub access_modes : List String
  pub storage : String
  pub phase : String

pub record ConfigMap : Type 0 where
  pub name : String
  pub namespace : String
  pub resource_version : String
  pub content : Dict String

pub record Secret : Type 0 where
  pub name : String
  pub namespace : String
  pub content : Dict String

pub record ServicePort : Type 0 where
  pub name : String
  pub protocol : String
  pub port : ℕ
  pub target_port : ℕ

pub record Service : Type 0 where
  pub name : String
  pub namespace : String
  pub type : String
  pub ports : List ServicePort
  pub selector : Dict String
  pub cluster_ip : String

-- `Replicas` is a pointer; no specification of a deployment that the operator reads has it nil.
pub record DeploymentSpec : Type 0 where
  pub strategy : String
  pub replicas : ℕ
  pub match_labels : Dict String
  pub labels : Dict String
  pub annotations : Dict String
  pub restart_policy : String
  pub init_containers : List Container
  pub containers : List Container
  pub volumes : List Volume

pub record DeploymentStatus : Type 0 where
  pub replicas : ℕ
  pub ready_replicas : ℕ
  pub unavailable_replicas : ℕ

pub record Deployment : Type 0 where
  pub name : String
  pub namespace : String
  pub spec : DeploymentSpec
  pub status : DeploymentStatus
