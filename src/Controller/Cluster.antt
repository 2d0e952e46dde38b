-- ===== src/Controller/Cluster.antt =====
-- internal/controller/conduit_controller.go: what `Reconcile` calls, the client, ctrlutil and the
-- libraries, and what it answers.
use conduit_operator.Prelude.{ℕ, String, Bool, Option, List}
use conduit_operator.Prelude.Dict.{Dict}
use conduit_operator.Prelude.Result.{Result}
use conduit_operator.Api.Types.{Conduit, ConduitStatus, NamespacedName}
use conduit_operator.Semver.{Semver}
use conduit_operator.Kube.{
  EnvVar, ConfigMap, Secret, PersistentVolumeClaim, Service, Deployment, DeploymentSpec,
}
use conduit_operator.Config.{Reader, Configuration}
use conduit_operator.Config.Registry.{Urls}
use conduit_operator.Controller.State.{Event, Answer}

-- The answers of `Get` for the resource.
pub data Fetch : Type 0 where
  fetched : Conduit → Fetch
  not_found : Fetch
  unavailable : String → Fetch

-- The client, as the reconciler calls it, and the calls of ctrlutil. The function of an object
-- answers a call of `CreateOrUpdate` for the object of that name.
pub record Cluster : Type 1 where
  pub World : Type 0
  pub get_conduit : NamespacedName → World → Fetch
  pub update_conduit : Conduit → World → World × Option String
  pub reader : World → Reader
  pub config_map : NamespacedName → World → Answer World ConfigMap
  pub secret : NamespacedName → World → Answer World Secret
  pub volume : PersistentVolumeClaim → World → Answer World PersistentVolumeClaim
  pub deployment : NamespacedName → World → Answer World Deployment
  pub service : NamespacedName → World → Answer World Service
  pub get_status : Conduit → World → Result ConduitStatus
  pub same_status : ConduitStatus → ConduitStatus → Bool
  pub save_status : Conduit → ConduitStatus → World → World × Option String
  pub contains_finalizer : List String → String → Bool
  pub add_finalizer : List String → String → List String
  pub remove_finalizer : List String → String → List String

-- `rules` is the order of the range in `ForVersion`, and `order` that in which `SortFunc` takes
-- variables of one name.
pub record Libraries : Type 1 where
  pub semver : Semver
  pub rules : Dict String
  pub urls : Urls
  pub order : List EnvVar → List EnvVar
  pub schema_registry_type_confluent : String
  pub marshal : Configuration → Result String
  pub must_parse : String → String
  pub merge : DeploymentSpec → DeploymentSpec → Result DeploymentSpec
  pub show : ℕ → String

-- The seconds of `RequeueAfter`, and the errors that are joined.
pub record Reconciled (W : Type 0) : Type 0 where
  pub world : W
  pub events : List Event
  pub requeue_after : ℕ
  pub errors : List String
