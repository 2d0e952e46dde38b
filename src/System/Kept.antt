-- ===== src/System/Kept.antt =====
-- internal/controller/conduit_controller.go: the stages do no more to the world than the writes of their objects.
pub mod Stages
use conduit_operator.Prelude.{
  ℕ, String, ◌<>◌, ◌≡◌, refl, ap, sym, subst, ◌∙◌, Bool, true, false, ◌==◌, ◌||◌, Option, none,
  some, Bool-cases, inl, inr, ◌⊎◌, arith, if◌then◌else◌,
}
use conduit_operator.Prelude.Dict.{Dict}
use conduit_operator.Prelude.Result.{Result, ok, err, Result-cases}
use conduit_operator.Api.Condition.{ConditionType, ConditionStatus}
use conduit_operator.Api.Status.{condition_changed}
use conduit_operator.Api.Types.{Conduit, namespaced_name}
use conduit_operator.Flags.{Call, returns, panics}
use conduit_operator.Kube.{
  Container, ConfigMap, Secret, PersistentVolumeClaim, Service, Deployment, DeploymentSpec,
}
use conduit_operator.Controller.Run.{Run, done, panicked, done_injective, not_panicked}
use conduit_operator.Controller.State.{
  State, Answer, unread, found, Operation, unchanged, updated, created, emit, set, fail, finish,
  after_build, create_or_update,
}
use conduit_operator.Controller.Saved.{finish-world, set_running-world}
use conduit_operator.Controller.Objects.{
  mutate_config, create_or_update_config, mutate_secret, create_or_update_secret, mutate_volume,
  create_or_update_volume, mutate_service, create_or_update_service,
}
use conduit_operator.Controller.Deployment.{
  set_running, mutate_deployment, update_deployment, apply_deployment, create_or_update_deployment,
  deployment_running_status, deployment_spec, deployment_labels, deployment_annotations,
  deployment_env,
}

-- `R` is what may become of the world while others write to it.
module _ {W : Type 0} (R : W → W → Type 0) (same_world : (w : W) → R w w) where
  abbrev pub Keeps : State W → State W × Option String → Type 0
  Keeps s out = R s.world out.0.world

  -- Saving an object does no more to the world.
  abbrev pub Aside : {A : Type 0} → Answer W A → W → Type 0
  Aside {A} answer w =
      (a : A) (owner : Option String) (save : A → W × Result Operation)
      → answer ≡ found a owner save
      → (a' : A) → R w (save a').0

  module _ (now : ℕ → ℕ) where
    create_or_update-Keeps :
        {A : Type 0} (ct : ConditionType) (error_reason : String)
        (mutate : A → State W → A × State W) (answer : Answer W A) (s : State W)
        → ((a : A) → (mutate a s).1.world ≡ s.world)
        → Aside answer s.world
        → Keeps s (create_or_update now ct error_reason mutate answer s)
    unfolding create_or_update
    create_or_update-Keeps ct error_reason mutate (unread e) s same aside = same_world s.world
    create_or_update-Keeps ct error_reason mutate (found a (some e) save) s same aside =
        subst (R s.world) (sym (same a)) (same_world s.world)
    create_or_update-Keeps ct error_reason mutate (found a none save) s same aside =
        let (w', r) = save (mutate a s).0 in
        subst (R s.world)
          (sym (finish-world now ct error_reason r (record (mutate a s).1 { world = w' })))
          (aside a none save refl (mutate a s).0)

    pub create_or_update_config-Keeps :
        (yaml : Result String) (answer : Answer W ConfigMap) (s : State W)
        → Aside answer s.world
        → Keeps s (create_or_update_config now yaml answer s)
    unfolding create_or_update_config mutate_config
    create_or_update_config-Keeps (err e) answer s aside = same_world s.world
    create_or_update_config-Keeps (ok y) answer s aside =
        create_or_update-Keeps _ _ (mutate_config now y) answer s (λ a. refl) aside

    pub create_or_update_secret-Keeps :
        (content : Result (Dict String)) (answer : Answer W Secret) (s : State W)
        → Aside answer s.world
        → Keeps s (create_or_update_secret now content answer s)
    unfolding create_or_update_secret mutate_secret
    create_or_update_secret-Keeps (err e) answer s aside = same_world s.world
    create_or_update_secret-Keeps (ok d) answer s aside =
        create_or_update-Keeps _ _ (mutate_secret now d) answer s (λ a. refl) aside

    mutate_volume-world :
        (pvc : PersistentVolumeClaim) (s : State W) → (mutate_volume now pvc s).1.world ≡ s.world
    unfolding mutate_volume
    mutate_volume-world pvc s = ground arith

    pub create_or_update_volume-Keeps :
        (answer : Answer W PersistentVolumeClaim) (s : State W)
        → Aside answer s.world
        → Keeps s (create_or_update_volume now answer s)
    unfolding create_or_update_volume
    create_or_update_volume-Keeps answer s aside =
        create_or_update-Keeps _ _ (mutate_volume now) answer s (λ a. mutate_volume-world a s) aside

    pub create_or_update_service-Keeps :
        (c : Conduit) (answer : Answer W Service) (s : State W)
        → Aside answer s.world
        → Keeps s (create_or_update_service now c answer s)
    unfolding create_or_update_service mutate_service
    create_or_update_service-Keeps c answer s aside =
        create_or_update-Keeps _ _ (mutate_service now (namespaced_name c).name) answer s
          (λ a. refl) aside

    module _ (show : ℕ → String) (labels annotations : Dict String) (c : Conduit)
        (merge : DeploymentSpec → DeploymentSpec → Result DeploymentSpec) where
      update_deployment-Keeps :
          (container : Container) (d : Deployment) (answer : Answer W Deployment) (s : State W)
          → Aside answer s.world
          → Keeps s (update_deployment show now merge labels annotations c container d answer s)
      unfolding update_deployment mutate_deployment
      update_deployment-Keeps container d answer s aside =
          elim (Result-cases (merge d.spec (deployment_spec c container))) [
            | inr (m, e) ↦ rw (e, update_deployment) (same_world s.world)
            | inl (merged, e) ↦
                rw (e, update_deployment)
                  (create_or_update-Keeps _ _
                    (mutate_deployment show now labels annotations c merged) answer s
                    (λ a. set_running-world now _ _ _ s) aside)
          ]

      pub apply_deployment-Keeps :
          (container : Call Container) (answer : Answer W Deployment) (s : State W)
          (out : State W × Option String)
          → Aside answer s.world
          → apply_deployment show now merge labels annotations c container answer s ≡ done out
          → Keeps s out
      unfolding apply_deployment
      apply_deployment-Keeps container (unread e) s out aside h =
          subst (Keeps s) (done_injective h) (same_world s.world)
      apply_deployment-Keeps panics (found d owner save) s out aside h = absurd (not_panicked h)
      apply_deployment-Keeps (returns (err e)) (found d owner save) s out aside h =
          subst (Keeps s) (done_injective h) (same_world s.world)
      apply_deployment-Keeps (returns (ok container)) (found d owner save) s out aside h =
          subst (Keeps s) (done_injective h)
            (update_deployment-Keeps container d (found d owner save) s aside)
