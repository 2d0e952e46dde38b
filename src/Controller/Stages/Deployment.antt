-- ===== src/Controller/Stages/Deployment.antt =====
-- internal/controller/conduit_controller.go: the stage of the deployment.
use conduit_operator.Prelude.{List, ℕ, String, ◌≡◌, refl, ap, subst, ◌∙◌, true, Option, none, some}
use conduit_operator.Prelude.Dict.{Dict}
use conduit_operator.Prelude.Result.{Result, ok, err}
use conduit_operator.Api.Types.{Conduit, ConduitInstanceMetadata}
use conduit_operator.Flags.{Args, Call, returns, panics}
use conduit_operator.Semver.{Semver}
use conduit_operator.Kube.{EnvVar, Container, Deployment, DeploymentSpec, ConfigMap, Secret}
use conduit_operator.Containers.{conduit_runtime_container}
use conduit_operator.Controller.Run.{done, done_injective, not_panicked}
use conduit_operator.Controller.State.{State, Answer, unread, found, Operation}
use conduit_operator.Controller.Deployment.{
  update_deployment, apply_deployment, create_or_update_deployment, deployment_labels,
  deployment_annotations, deployment_env,
}
use conduit_operator.Controller.Touches.{Touches, Touches-refl, status_of, Sound}
use conduit_operator.Controller.Stages.{fail-Tells}
use conduit_operator.Controller.Stages.Updating.{
  running, SeesRunning, update_deployment-Touches, update_deployment_of_error,
  update_deployment_of_running,
}

module _ {W : Type 0} (show : ℕ → String) (now : ℕ → ℕ) (labels annotations : Dict String)
    (c : Conduit) (merge : DeploymentSpec → DeploymentSpec → Result DeploymentSpec) where
  apply_deployment_of_error :
      (container : Call Container) (answer : Answer W Deployment) (s : State W)
      (r : State W × Option String) (e : String)
      → Sound s.status
      → apply_deployment show now merge labels annotations c container answer s ≡ done r
      → r.1 ≡ some e
      → status_of running r.0.status ≡ some "False"
  unfolding apply_deployment
  apply_deployment_of_error container (unread m) s r e w h f =
      subst (λ x. status_of running x.0.status ≡ some "False") (done_injective h)
        (fail-Tells now running "DeploymentError" refl true m s s
          (Touches-refl running s.status w)).tells
  apply_deployment_of_error panics (found d owner save) s r e w h f = absurd (not_panicked h)
  apply_deployment_of_error (returns (err m)) (found d owner save) s r e w h f =
      subst (λ x. status_of running x.0.status ≡ some "False") (done_injective h)
        (fail-Tells now running "DeploymentError" refl true m s s
          (Touches-refl running s.status w)).tells
  apply_deployment_of_error (returns (ok container)) (found d owner save) s r e w h f =
      subst (λ x. status_of running x.0.status ≡ some "False") (done_injective h)
        (update_deployment_of_error show now labels annotations c merge container d
          (found d owner save) s e w (ap (λ x. x.1) (done_injective h) ∙ f))

  apply_deployment-Touches :
      (container : Call Container) (answer : Answer W Deployment) (s : State W)
      (r : State W × Option String)
      → Sound s.status
      → apply_deployment show now merge labels annotations c container answer s ≡ done r
      → Touches running s.status r.0.status
  unfolding apply_deployment
  apply_deployment-Touches container (unread e) s r w h =
      subst (λ x. Touches running s.status x.0.status) (done_injective h)
        (fail-Tells now running "DeploymentError" refl true e s s
          (Touches-refl running s.status w)).touches
  apply_deployment-Touches panics (found d owner save) s r w h = absurd (not_panicked h)
  apply_deployment-Touches (returns (err e)) (found d owner save) s r w h =
      subst (λ x. Touches running s.status x.0.status) (done_injective h)
        (fail-Tells now running "DeploymentError" refl true e s s
          (Touches-refl running s.status w)).touches
  apply_deployment-Touches (returns (ok container)) (found d owner save) s r w h =
      subst (λ x. Touches running s.status x.0.status) (done_injective h)
        (update_deployment-Touches show now labels annotations c merge container d
          (found d owner save) s w)

-- The resource's deployment is there to be read with its config map and its secret, its container
-- can be made, and it is seen running.
pub record IsRunning {W : Type 0} (S : Semver) (rules : Dict String)
    (order : List EnvVar → List EnvVar)
    (merge : DeploymentSpec → DeploymentSpec → Result DeploymentSpec) (flags : Args) (c : Conduit)
    (cm : Result ConfigMap) (secret : Result Secret) (answer : Answer W Deployment) : Type 0 where
  pub config_map : ConfigMap
  pub reads_config_map : cm ≡ ok config_map
  pub secret_read : Secret
  pub reads_secret : secret ≡ ok secret_read
  pub deployment : Deployment
  pub owner : Option String
  pub save : Deployment → W × Result Operation
  pub reads : answer ≡ found deployment owner save
  pub container : Container
  pub makes :
      conduit_runtime_container S rules c.spec.image c.spec.version
        (deployment_env order c secret_read)
        flags
      ≡ returns (ok container)
  pub sees : SeesRunning merge c container deployment

module _ {W : Type 0} (show : ℕ → String) (now : ℕ → ℕ)
    (merge : DeploymentSpec → DeploymentSpec → Result DeploymentSpec) (S : Semver)
    (rules : Dict String) (order : List EnvVar → List EnvVar) (meta : ConduitInstanceMetadata)
    (flags : Args) (c : Conduit) (s : State W) (r : State W × Option String)
    (w : Sound s.status) where
  pub create_or_update_deployment-Touches :
      (cm : Result ConfigMap) (secret : Result Secret) (answer : Answer W Deployment)
      → create_or_update_deployment show now merge S rules order meta flags c cm secret answer s
        ≡ done r
      → Touches running s.status r.0.status
  unfolding create_or_update_deployment
  create_or_update_deployment-Touches (err e) secret answer h =
      subst (λ x. Touches running s.status x.0.status) (done_injective h)
        (Touches-refl running s.status w)
  create_or_update_deployment-Touches (ok cm) (err e) answer h =
      subst (λ x. Touches running s.status x.0.status) (done_injective h)
        (Touches-refl running s.status w)
  create_or_update_deployment-Touches (ok cm) (ok secret) answer h =
      apply_deployment-Touches show now (deployment_labels meta c)
        (deployment_annotations meta c cm) c merge
        (conduit_runtime_container S rules c.spec.image c.spec.version
          (deployment_env order c secret) flags)
        answer s r w h

  pub create_or_update_deployment_of_running :
      (cm : Result ConfigMap) (secret : Result Secret) (answer : Answer W Deployment)
      → create_or_update_deployment show now merge S rules order meta flags c cm secret answer s
        ≡ done r
      → IsRunning S rules order merge flags c cm secret answer
      → r.1 ≡ none
      → status_of running r.0.status ≡ some "True"
  unfolding create_or_update_deployment apply_deployment
  create_or_update_deployment_of_running cm secret answer h k none_ =
      let after =
        update_deployment show now merge (deployment_labels meta c)
          (deployment_annotations meta c k.config_map) c k.container k.deployment
          (found k.deployment k.owner k.save) s in
      let same : after ≡ r = done_injective (
        rw
          (
            k.reads_config_map, k.reads_secret, k.reads, create_or_update_deployment, k.makes,
            apply_deployment,
          )
          at h) in
      subst (λ x. status_of running x.0.status ≡ some "True") same
        (update_deployment_of_running show now (deployment_labels meta c)
          (deployment_annotations meta c k.config_map) c merge k.container k.deployment k.owner
          k.save s w k.sees (ap (λ x. x.1) same ∙ none_))

  -- Where the config map and the secret are there, an error of the stage makes the condition False.
  pub create_or_update_deployment_of_error :
      (cm : ConfigMap) (secret : Secret) (answer : Answer W Deployment) (e : String)
      → create_or_update_deployment show now merge S rules order meta flags c
          (ok cm)
          (ok secret)
          answer
          s
        ≡ done r
      → r.1 ≡ some e
      → status_of running r.0.status ≡ some "False"
  unfolding create_or_update_deployment
  create_or_update_deployment_of_error cm secret answer e h f =
      apply_deployment_of_error show now (deployment_labels meta c)
        (deployment_annotations meta c cm) c merge
        (conduit_runtime_container S rules c.spec.image c.spec.version
          (deployment_env order c secret) flags)
        answer s r e w h f
