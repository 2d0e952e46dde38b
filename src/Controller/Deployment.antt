-- ===== src/Controller/Deployment.antt =====
-- internal/controller/conduit_controller.go: the stage of the deployment.
--
-- `merge`, JSON out of one specification into another, and the printing of numbers are the
-- parameters `merge` and `show`. `slices.SortFunc` is not stable: it is a stable sort of any order of
-- the variables, which is the parameter `order`.
pub mod Labels
pub mod Env
pub mod Reorder
use conduit_operator.Prelude.{
  ℕ, String, ◌<>◌, Bool, true, false, ◌==◌, ◌||◌, Option, none, some, List, [], ◌∷◌, ◌++◌, nat_eq,
  leb, if◌then◌else◌,
}
use conduit_operator.Prelude.Dict.{Dict, copy, insert}
use conduit_operator.Prelude.Result.{Result, ok, err}
use conduit_operator.Strings.Order.{text_lt}
use conduit_operator.Api.Condition.{
  ConditionStatus, condition_true, condition_false, condition_unknown,
}
use conduit_operator.Api.Status.{condition_changed}
use conduit_operator.Api.Types.{
  Conduit, ConduitInstanceMetadata, condition_conduit_deployment_running, namespaced_name,
  errored_reason, stopped_reason, pending_reason, running_reason, degraded_reason,
}
use conduit_operator.Kube.{
  EnvVar, Container, ConfigMap, Secret, Deployment, DeploymentSpec, DeploymentStatus,
}
use conduit_operator.Flags.{Args, Call, returns, panics}
use conduit_operator.Semver.{Semver}
use conduit_operator.Config.{Reader, env_vars, env_vars_from_secret}
use conduit_operator.Containers.{conduit_init_containers, conduit_runtime_container}
use conduit_operator.Volumes.{conduit_volume, conduit_pipeline_vol}
use conduit_operator.Controller.Run.{Run, done, panicked}
use conduit_operator.Controller.State.{
  State, Answer, unread, found, emit, normal, warning, set, fail, create_or_update,
}

unfoldable pub get_replicas : Conduit → ℕ
get_replicas c = elim c.spec.running [ some true ↦ 1 | some false ↦ 0 | none ↦ 0 ]

-- The first argument is the deployment's `Spec.Replicas`.
unfoldable pub deployment_running_status : ℕ → DeploymentStatus → ConditionStatus × String
deployment_running_status spec_replicas d =
    if nat_eq spec_replicas 0
    then (condition_false, stopped_reason)
    else if nat_eq d.replicas 0
    then (condition_unknown, pending_reason)
    else if leb d.replicas d.ready_replicas
    then (condition_true, running_reason)
    else if leb d.replicas d.unavailable_replicas
    then (condition_false, degraded_reason)
    else (condition_unknown, pending_reason)

abbrev pub name_label : String
name_label = "app.kubernetes.io/name"

abbrev pub config_map_version : String
config_map_version = "operator.conduit.io/config-map-version"

unfoldable pub deployment_labels : ConduitInstanceMetadata → Conduit → Dict String
unfolding copy insert namespaced_name
deployment_labels meta c =
    insert name_label (namespaced_name c).name (copy (copy [] meta.labels) c.meta.labels)

unfoldable pub deployment_annotations : ConduitInstanceMetadata → Conduit → ConfigMap → Dict String
unfolding copy insert
deployment_annotations meta c cm =
    insert config_map_version cm.resource_version
      (copy (copy [] meta.pod_annotations) c.meta.annotations)

unfoldable pub insert_env : EnvVar → List EnvVar → List EnvVar
insert_env e [] = e ∷ []
insert_env e (x ∷ xs) =
    let rest = insert_env e xs in if text_lt x.name e.name then x ∷ rest else e ∷ x ∷ xs

unfoldable pub stable_sort : List EnvVar → List EnvVar
unfolding insert_env
stable_sort [] = []
stable_sort (e ∷ es) = insert_env e (stable_sort es)

-- `slices.SortFunc` by the names. It is not stable: variables of one name come in the order in which
-- `order` puts them, which may be any.
abbrev pub sort_env : (List EnvVar → List EnvVar) → List EnvVar → List EnvVar
sort_env order es = stable_sort (order es)

-- Without a variable of the secret the others keep their order.
unfoldable pub deployment_env : (List EnvVar → List EnvVar) → Conduit → Secret → List EnvVar
deployment_env order c secret = elim (env_vars_from_secret secret) [
  | [] ↦ env_vars c
  | v ∷ vs ↦ sort_env order (env_vars c ++ v ∷ vs)
]

unfoldable pub deployment_spec : Conduit → Container → DeploymentSpec
deployment_spec c container =
    let name = (namespaced_name c).name in
    record {
      strategy = "Recreate";
      replicas = get_replicas c;
      match_labels = [];
      labels = [];
      annotations = [];
      restart_policy = "Always";
      init_containers = conduit_init_containers c.spec.connectors c.spec.processors;
      containers = container ∷ [];
      volumes = conduit_volume name ∷ conduit_pipeline_vol name ∷ [];
    }

module _ {W : Type 0} where
  -- The `switch` on the running status; `ready_replicas` is the text of the two numbers.
  unfoldable pub set_running : (ℕ → ℕ) → ConditionStatus → String → String → State W → State W
  set_running now status reason ready_replicas s =
      if status == condition_true || status == condition_false
      then set now 0 condition_conduit_deployment_running status reason ready_replicas (
          if condition_changed s.status condition_conduit_deployment_running status
          then emit normal reason s
          else s)
      else emit normal reason s

  module _ (show : ℕ → String) (now : ℕ → ℕ) where
    -- `deploymentFn` behind the merge, whose result is `merged`.
    unfoldable pub mutate_deployment :
        (labels annotations : Dict String)
        → Conduit
        → (merged : DeploymentSpec) → Deployment
        → State W
        → Deployment × State W
    mutate_deployment labels annotations c merged d s =
        let (status, reason) = deployment_running_status merged.replicas d.status in
        let ready = show d.status.ready_replicas <> ("/" <> show (get_replicas c)) in
        (
          record d {
            spec = record merged {
              match_labels = (name_label, (namespaced_name c).name) ∷ [];
              labels = labels;
              annotations = annotations;
            };
          },
          set_running now status reason ready s,
        )

    abbrev pub fail_deployment : String → State W → State W × Option String
    fail_deployment = fail now condition_conduit_deployment_running "DeploymentError"

    module _ (merge : DeploymentSpec → DeploymentSpec → Result DeploymentSpec) where
      -- `deploymentFn` behind the container: an error of the merge, or the rest of the function.
      unfoldable pub update_deployment :
          (labels annotations : Dict String)
          → Conduit
          → Container
          → Deployment
          → Answer W Deployment
          → State W
          → State W × Option String
      update_deployment labels annotations c container d answer s =
          elim (merge d.spec (deployment_spec c container)) [
            | err e ↦ fail_deployment e s
            | ok merged ↦
                create_or_update now condition_conduit_deployment_running "DeploymentError"
                  (mutate_deployment labels annotations c merged) answer s
          ]

      -- The call of `CreateOrUpdate`, with the container that `deploymentFn` builds first.
      unfoldable pub apply_deployment :
          (labels annotations : Dict String)
          → Conduit
          → Call Container
          → Answer W Deployment
          → State W
          → Run (State W × Option String)
      apply_deployment labels annotations c container (unread e) s = done (fail_deployment e s)
      apply_deployment labels annotations c panics (found d owner save) s = panicked
      apply_deployment labels annotations c (returns (err e)) (found d owner save) s =
          done (fail_deployment e s)
      apply_deployment labels annotations c (returns (ok container)) (found d owner save) s =
          done (update_deployment labels annotations c container d (found d owner save) s)

      -- `cm` and `secret` are the results of the two calls of `Get`.
      unfoldable pub create_or_update_deployment :
          (S : Semver) (rules : Dict String) (order : List EnvVar → List EnvVar)
          → ConduitInstanceMetadata
          → Args
          → Conduit
          → (cm : Result ConfigMap) (secret : Result Secret) → Answer W Deployment
          → State W
          → Run (State W × Option String)
      create_or_update_deployment S rules order meta flags c (err e) secret answer s =
          done (emit warning errored_reason s, some e)
      create_or_update_deployment S rules order meta flags c (ok cm) (err e) answer s =
          done (emit warning errored_reason s, some e)
      create_or_update_deployment S rules order meta flags c (ok cm) (ok secret) answer s =
          apply_deployment (deployment_labels meta c) (deployment_annotations meta c cm) c
            (conduit_runtime_container S rules c.spec.image c.spec.version
              (deployment_env order c secret) flags)
            answer s
