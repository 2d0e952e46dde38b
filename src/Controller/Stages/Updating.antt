-- ===== src/Controller/Stages/Updating.antt =====
-- internal/controller/conduit_controller.go: the update of the deployment, behind its container.
use conduit_operator.Prelude.{
  ℕ, String, ◌≡◌, refl, ap, ◌∙◌, ◌==◌, ◌||◌, Bool, true, Option, none, some, arith, if◌then◌else◌,
  Bool-cases, inl, inr, eq_iff,
}
use conduit_operator.Prelude.Dict.{Dict}
use conduit_operator.Prelude.Result.{Result, ok, Result-cases}
use conduit_operator.Api.Condition.{ConditionStatus}
use conduit_operator.Api.Status.{set_condition}
use conduit_operator.Api.Types.{Conduit, ConduitStatus}
use conduit_operator.Kube.{Container, Deployment, DeploymentSpec}
use conduit_operator.Controller.State.{State, Answer, found, Operation, set}
use conduit_operator.Controller.Deployment.{
  deployment_running_status, set_running, mutate_deployment, deployment_spec, update_deployment,
}
use conduit_operator.Controller.Touches.{
  Touches, Touches-refl, Touches-set_condition, status_of, status_of-set_condition, Sound,
}
use conduit_operator.Controller.Stages.{
  fail-Tells, create_or_update-Touches, create_or_update_of_none, create_or_update_of_error,
}

abbrev pub running : String
running = "DeploymentRunning"

-- The status that is set, or the one there is.
abbrev settled : Bool → ConduitStatus → ConduitStatus → ConduitStatus
settled b set old = if b then set else old

-- The deployment is seen running: the merge succeeds, and the running status of its result is True.
pub record SeesRunning (merge : DeploymentSpec → DeploymentSpec → Result DeploymentSpec)
    (c : Conduit) (container : Container) (d : Deployment) : Type 0 where
  pub merged : DeploymentSpec
  pub merges : merge d.spec (deployment_spec c container) ≡ ok merged
  pub runs : (deployment_running_status merged.replicas d.status).0 ≡ "True"

module _ {W : Type 0} where
  status-set_running :
      (now : ℕ → ℕ) (status : ConditionStatus) (reason ready : String) (s : State W)
      → (set_running now status reason ready s).status
        ≡ settled
            (status == "True" || status == "False")
            (set_condition (now 0) (now 1) s.status running status reason ready)
            s.status
  unfolding set_running
  status-set_running now status reason ready s = ground arith

  -- The condition is set where the running status is True or False, and else left as it is.
  Touches-set_running :
      (now : ℕ → ℕ) (status : ConditionStatus) (reason ready : String) (s : State W)
      → Sound s.status
      → Touches running s.status (set_running now status reason ready s).status
        × (status ≡ "True"
            → status_of running (set_running now status reason ready s).status ≡ some "True")
  Touches-set_running now status reason ready s w =
      rw (status-set_running now status reason ready s)
        (elim (Bool-cases (status == "True" || status == "False")) [
          | inl e ↦ rw e (
            Touches-set_condition (now 0) (now 1) running status reason ready s.status w,
            λ h.
                status_of-set_condition (now 0) (now 1) running status reason ready s.status w refl
                ∙ ap some h,
          )
          | inr e ↦
              rw e (
                Touches-refl running s.status w,
                λ h. absurd (ground (arith, eq_iff status "True")),
              )
        ])

  module _ (show : ℕ → String) (now : ℕ → ℕ) (labels annotations : Dict String) (c : Conduit) where
    mutate-Touches :
        (merged : DeploymentSpec) (d : Deployment) (s : State W)
        → Sound s.status
        → Touches running s.status
            (mutate_deployment show now labels annotations c merged d s).1.status
          × ((deployment_running_status merged.replicas d.status).0 ≡ "True"
              → status_of running
                  (mutate_deployment show now labels annotations c merged d s).1.status
                ≡ some "True")
    unfolding mutate_deployment
    mutate-Touches merged d s w =
        let (status, reason) = deployment_running_status merged.replicas d.status in
        Touches-set_running now status reason _ s w

    module _ (merge : DeploymentSpec → DeploymentSpec → Result DeploymentSpec) where
      pub update_deployment-Touches :
          (container : Container) (d : Deployment) (answer : Answer W Deployment) (s : State W)
          → Sound s.status
          → Touches running s.status
              (update_deployment show now merge labels annotations c container d answer s).0.status
      unfolding update_deployment
      update_deployment-Touches container d answer s w =
          elim (Result-cases (merge d.spec (deployment_spec c container))) [
            | inl (merged, e) ↦
                rw (e, update_deployment)
                  (create_or_update-Touches now running "DeploymentError" refl
                    (mutate_deployment show now labels annotations c merged) answer s w
                    (λ a. (mutate-Touches merged a s w).0))
            | inr (m, e) ↦
                rw (e, update_deployment)
                  (fail-Tells now running "DeploymentError" refl true m s s
                    (Touches-refl running s.status w)).touches
          ]

      pub update_deployment_of_error :
          (container : Container) (d : Deployment) (answer : Answer W Deployment) (s : State W)
          (e : String)
          → Sound s.status
          → (update_deployment show now merge labels annotations c container d answer s).1 ≡ some e
          → status_of running
              (update_deployment show now merge labels annotations c container d answer s).0.status
            ≡ some "False"
      unfolding update_deployment
      update_deployment_of_error container d answer s e w r =
          elim (Result-cases (merge d.spec (deployment_spec c container))) [
            | inl (merged, m) ↦
                rw (m, update_deployment)
                  (create_or_update_of_error now running "DeploymentError" refl
                    (mutate_deployment show now labels annotations c merged) answer s e w
                    (λ a. (mutate-Touches merged a s w).0) (rw (m, update_deployment) at r))
            | inr (text, m) ↦
                rw (m, update_deployment)
                  (fail-Tells now running "DeploymentError" refl true text s s
                    (Touches-refl running s.status w)).tells
          ]

      pub update_deployment_of_running :
          (container : Container) (d : Deployment) (owner : Option String)
          (save : Deployment → W × Result Operation) (s : State W)
          → Sound s.status
          → SeesRunning merge c container d
          → (update_deployment show now merge labels annotations c container d
              (found d owner save)
              s).1
            ≡ none
          → status_of running
              (update_deployment show now merge labels annotations c container d
                (found d owner save)
                s).0.status
            ≡ some "True"
      unfolding update_deployment
      update_deployment_of_running container d owner save s w r h =
          rw (r.merges, update_deployment)
            (rw
              (create_or_update_of_none now running "DeploymentError" refl
                (mutate_deployment show now labels annotations c r.merged) d owner save s
                (rw (r.merges, update_deployment) at h))
              ((mutate-Touches r.merged d s w).1 r.runs))
